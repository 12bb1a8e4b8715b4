-- ===== src/Avito/Paid.antt =====
-- What a checkout that went through has done: the button of cmd/avitomock/main.go, the handlers of
-- transport/api, ProcessPayment and UseRightTx together.
use team_10_queue_serivce.Base.{
  ℕ, ◌≡◌, ◌≢◌, refl, ap, subst, Bool, true, not, ◌&&◌, ◌||◌, List, Option, none, some, arith, ◌==◌,
}
use team_10_queue_serivce.Models.Status.{used}
use team_10_queue_serivce.Models.{Error, Right, empty_id}
use team_10_queue_serivce.Models.Result.{Result, ok, err}
use team_10_queue_serivce.Models.Result.OnOk.{OnOk}
use team_10_queue_serivce.World.{Store, World, M, pure}
use team_10_queue_serivce.World.Triple.{
  Ends, Triple, Always, Triple-pure, Triple-call, Triple-bind, Triple-if, Triple-clock, Triple-uuid,
  Triple-attempt, Triple-after, Triple-error, Triple-given, Triple-always,
}
use team_10_queue_serivce.Postgres.Rights.{Transition, has_order}
use team_10_queue_serivce.Postgres.Once.{IsPaid, use_right-IsPaid}
use team_10_queue_serivce.Service.Config.{QueueService, use_right_tx, commit_transition}
use team_10_queue_serivce.Service.Payment.{process_payment, settle_payment}
use team_10_queue_serivce.Transport.Response.{no_body, status_of, write_error}
use team_10_queue_serivce.Transport.Handlers.{Reply, respond, right_events}
use team_10_queue_serivce.Transport.Router.{internal_auth}
use team_10_queue_serivce.Lasting.{OthersKeep}
use team_10_queue_serivce.Lasting.Advance.{Keeps-settle_payment}
use team_10_queue_serivce.Lasting.Traffic.{Event, handle_all}
use team_10_queue_serivce.Lasting.Ended.{IsEnded, IsEnded-IsLasting, handle_all-IsEnded}
use team_10_queue_serivce.Avito.Link.{Weather, clear, request_lost, response_lost}
use team_10_queue_serivce.Avito.Checkout.{
  CheckoutError, over, report_outcome, Tokens, sent_header, report_payment, call_validate_right,
  PayReply, failed, reported_reply, after_validation, pay_handler,
}

-- The right of the token is used, by this order.
pub record IsPaidBy (order : ℕ) (r : Right) : Type 0 where
  pub is_used : r.status ≡ used
  pub by_order : has_order order r.order_id ≡ true

abbrev pub HasPaid : ℕ → ℕ → List Right → Type 0
HasPaid token order rs = (r : Right) × IsEnded token r rs × IsPaidBy order r

module _ (token order : ℕ) where
  abbrev Paid : Store → Type 0
  Paid st = HasPaid token order st.durable.rights

  abbrev Answered : Right × Bool → Store → Type 0
  Answered (r, transitioned) st = IsEnded token r st.durable.rights × IsPaidBy order r

  committed-Answered :
      (out : Result Transition) (st : Store)
      → OnOk (IsPaid token order) out
      → Ends Answered Always (commit_transition out st).0 (commit_transition out st).1
  committed-Answered (ok t) st h =
      ((h.kept, rw h.is_used refl), record { is_used = h.is_used; by_order = h.by_order })
  committed-Answered (err e) st h = tt

  use_right_tx-Answered : (now : ℕ) → Triple Always (use_right_tx token order now) Answered Always
  unfolding use_right_tx
  use_right_tx-Answered now = Triple-uuid _ λ event.
      Triple-call _
        (λ _ st h. committed-Answered _ st (use_right-IsPaid event token order now st.durable))
        (λ st h. tt)

  process_payment-Paid :
      (s : QueueService) → Triple Always (process_payment s token order) (λ _. Paid) Always
  unfolding process_payment
  process_payment-Paid s = Triple-clock _ λ now.
      Triple-bind _ _ (use_right_tx-Answered now) λ (r, transitioned).
        Triple-given (settle_payment s r transitioned now) λ by.
          Triple-after _ (λ _ st h. (r, h, by))
            (Triple-error _ (λ st h. tt)
              (Keeps-settle_payment (IsEnded token r) (IsEnded-IsLasting token r) s r transitioned
                now))

  status_of-refuses : (e : Error) → status_of e ≢ 202
  unfolding status_of
  status_of-refuses e h = ground (arith, h)

  abbrev Accepted : Reply → Store → Type 0
  Accepted reply st = reply.0 ≡ 202 → Paid st

  right_events-Accepted :
      (s : QueueService) → Triple Always (right_events s token (some (true, order))) Accepted Always
  unfolding right_events write_error
  right_events-Accepted s =
      Triple-attempt (process_payment s token order) (λ r. pure (respond (λ _. (202, no_body)) r))
        (process_payment-Paid s) (λ u. Triple-pure _ (λ st h _. h))
        (λ e. Triple-pure _ (λ st h k. absurd (status_of-refuses e k)))

  guarded-Accepted :
      (theirs header : ℕ) (next : M Reply)
      → Triple Always next Accepted Always
      → Triple Always (internal_auth theirs header next) Accepted Always
  guarded-Accepted theirs header next h =
      Triple-if (not (theirs == empty_id) && not (header == theirs)) _ _
        (λ _. Triple-pure _ (λ st _ k. absurd (omega arith))) (λ _. h)

  abbrev Seen : Option ℕ → Store → Type 0
  Seen code st = code ≡ some 202 → Paid st

  over-Seen :
      (weather : Weather) (m : M Reply)
      → Triple Always m Accepted Always
      → Triple Always (over weather m) Seen Always
  unfolding over
  over-Seen clear m h = Triple-bind _ _ h λ r. Triple-pure _ (λ st k e. k (some-inj _ _ e))
    where
      some-inj : (a b : ℕ) → some a ≡ some b → a ≡ b
      some-inj a b e = cc
  over-Seen request_lost m h = Triple-pure none (λ st _ e. cc)
  over-Seen response_lost m h = Triple-bind _ _ h λ r. Triple-pure none (λ st _ e. cc)

  report_outcome-none : (code : Option ℕ) → report_outcome code ≡ none → code ≡ some 202
  report_outcome-none none h = cc
  report_outcome-none (some code) h = ap some (ground (arith, h))

  abbrev Reported : Option CheckoutError → Store → Type 0
  Reported e st = e ≡ none → Paid st

  report_payment-Reported :
      (s : QueueService) (t : Tokens) (weather : Weather)
      → Triple Always (report_payment s t weather token order) Reported Always
  unfolding report_payment
  report_payment-Reported s t weather =
      Triple-bind _ _
        (over-Seen weather _
          (guarded-Accepted t.theirs (sent_header t) _ (right_events-Accepted s)))
        λ code. Triple-pure _ (λ st k e. k (report_outcome-none code e))

  -- A page that names an order, and its status is 200.
  abbrev Bought : PayReply → Store → Type 0
  Bought reply st = reply.0 ≡ 200 → (reply.1 ≡ some order) × Paid st

  failed-Bought : (e : CheckoutError) (st : Store) → Bought (failed e) st
  failed-Bought CheckoutError.right_unavailable st k = absurd (omega arith)
  failed-Bought CheckoutError.rejected st k = absurd (omega arith)
  failed-Bought CheckoutError.unreachable st k = absurd (omega arith)

  reported_reply-Bought :
      (e : Option CheckoutError) (st : Store) → Reported e st → Bought (reported_reply order e) st
  reported_reply-Bought none st h k = (refl, h refl)
  reported_reply-Bought (some e) st h k = failed-Bought e st k

  pay_handler-Bought :
      (s : QueueService) (t : Tokens) (first second : Weather) (p : ℕ)
      → Triple Always (pay_handler s t first second order (some (token, p))) Bought Always
  unfolding pay_handler
  pay_handler-Bought s t first second p =
      Triple-if ((token == empty_id) || (p == empty_id)) _ _
        (λ _. Triple-pure _ (λ st _ k. absurd (omega arith)))
        λ _. Triple-bind _ _ (Triple-always (call_validate_right t first token p)) by_outcome
    where
      by_outcome :
          (e : Option CheckoutError)
          → Triple Always
              (after_validation (report_payment s t second token order) order e)
              Bought
              Always
      by_outcome none =
          Triple-bind _ _ (report_payment-Reported s t second)
            λ e. Triple-pure _ (λ st h. reported_reply-Bought e st h)
      by_outcome (some e) = Triple-pure _ (λ st h. failed-Bought e st)

-- A checkout whose page says 200 names the order with which it paid, and the right is used by that order
-- for good: also after any sequence of requests, heartbeats, passes of the workers and restarts, whichever
-- remote calls and whichever calls between the two services fail, if what other requests do during a
-- wait leaves a right that is not active as it is.
pub pay_handler-HasPaid :
    (s : QueueService) (t : Tokens) (first second : Weather) (order token p : ℕ) (w : World)
    (o : Option ℕ)
    → let out = pay_handler s t first second order (some (token, p)) w in
      out.0 ≡ ok (200, o)
      → ((r : Right) → OthersKeep (IsEnded token r) s)
      → (es : List Event)
      → (o ≡ some order) × HasPaid token order (handle_all s es out.1).store.durable.rights
pay_handler-HasPaid s t first second order token p w o h others es =
    let (e, paid) = bought refl in
    let (r, ended, by) = paid in
    (e, (r, handle_all-IsEnded s token r (others r) es out.1 ended, by))
  where
    out : Result PayReply × World
    out = pay_handler s t first second order (some (token, p)) w

    bought : Bought token order (200, o) out.1.store
    bought =
        subst (λ x. Ends (Bought token order) Always x out.1.store) h
          ((pay_handler-Bought token order s t first second p).from w tt)
