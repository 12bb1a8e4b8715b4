-- ===== src/Avito/Checkout.antt =====
-- cmd/avitomock/main.go: the button of the checkout page, which asks the queue service about the right
-- and reports the payment, over the same kind of network as Link's.
use team_10_queue_serivce.Base.{ℕ, Bool, true, not, ◌||◌, Option, none, some, ◌==◌, if◌then◌else◌}
use team_10_queue_serivce.Models.{empty_id}
use team_10_queue_serivce.World.{M, pure, ◌>>=◌}
use team_10_queue_serivce.Service.Config.{QueueService}
use team_10_queue_serivce.Transport.Handlers.{Reply, check_right_for_checkout, right_events}
use team_10_queue_serivce.Transport.Router.{internal_auth}
use team_10_queue_serivce.Avito.Link.{Weather, clear, request_lost, response_lost}

-- errRightUnavailable, errQueueService, and a failure of the call itself.
pub data CheckoutError : Type 0 where
  right_unavailable rejected unreachable : CheckoutError

-- A call of the queue service: the status of its response, if one arrives.
unfoldable pub over : Weather → M Reply → M (Option ℕ)
over clear m = do r ← m; pure (some r.0)
over request_lost m = pure none
over response_lost m = do r ← m; pure none

-- The switch of validateRight, and the conditions of reportPayment.
abbrev pub is_unavailable : ℕ → Bool
is_unavailable code = (code == 404) || (code == 409) || (code == 403)

abbrev pub validation_outcome : Option ℕ → Option CheckoutError
validation_outcome none = some unreachable
validation_outcome (some code) =
    if code == 204
    then none
    else if is_unavailable code
    then some right_unavailable
    else some rejected

abbrev pub report_outcome : Option ℕ → Option CheckoutError
report_outcome none = some unreachable
report_outcome (some code) =
    if code == 404
    then some right_unavailable
    else if not (code == 202)
    then some rejected
    else none

-- The internal tokens of the stand-in and of the queue service. The header is set if the former is not
-- empty.
pub record Tokens : Type 0 where
  pub ours : ℕ
  pub theirs : ℕ

abbrev pub sent_header : Tokens → ℕ
sent_header t = if not (t.ours == empty_id) then t.ours else empty_id

-- server.validateRight
unfoldable pub call_validate_right : Tokens → Weather → ℕ → ℕ → M (Option CheckoutError)
unfolding over
call_validate_right t weather token p = do
  code ←
      over weather
        (internal_auth t.theirs (sent_header t) (check_right_for_checkout token (some p)))
  pure (validation_outcome code)

-- server.reportPayment
unfoldable pub report_payment : QueueService → Tokens → Weather → ℕ → ℕ → M (Option CheckoutError)
unfolding over
report_payment s t weather token order = do
  code ←
      over weather
        (internal_auth t.theirs (sent_header t) (right_events s token (some (true, order))))
  pure (report_outcome code)

-- The status of the page's response, and the order that it names.
abbrev pub PayReply : Type 0
PayReply = ℕ × Option ℕ

abbrev pub failed : CheckoutError → PayReply
failed right_unavailable = (409, none)
failed _ = (502, none)

abbrev pub reported_reply : ℕ → Option CheckoutError → PayReply
reported_reply order none = (200, some order)
reported_reply order (some e) = failed e

abbrev pub after_validation : M (Option CheckoutError) → ℕ → Option CheckoutError → M PayReply
after_validation report order none = do e ← report; pure (reported_reply order e)
after_validation report order (some e) = pure (failed e)

-- server.pay, with the token and the product of the body, the order that it makes of its clock, and the
-- weather of its two calls.
unfoldable pub pay_handler :
    QueueService → Tokens → Weather → Weather → ℕ → Option (ℕ × ℕ) → M PayReply
unfolding call_validate_right report_payment
pay_handler s t first second order none = pure (400, none)
pay_handler s t first second order (some (token, p)) =
    if (token == empty_id) || (p == empty_id)
    then pure (400, none)
    else call_validate_right t first token p
      >>= after_validation (report_payment s t second token order) order
