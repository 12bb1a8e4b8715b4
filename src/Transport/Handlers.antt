-- ===== src/Transport/Handlers.antt =====
-- queue.go, rights.go, user_queues.go, stats.go and seller.go of transport/api: the handlers. A body is `none` where it cannot be
-- decoded, and `u` is the user whom the middleware found.
use team_10_queue_serivce.Base.{ℕ, List, Bool, Option, none, some, ◌==◌, if◌then◌else◌}
use team_10_queue_serivce.Base.Int.{ℤ}
use team_10_queue_serivce.Models.Status.{sold_out, is_sold_out}
use team_10_queue_serivce.Models.{Right, empty_id}
use team_10_queue_serivce.Models.Result.{Result, ok, err}
use team_10_queue_serivce.World.{M, pure, attempt, ◌>>=◌}
use team_10_queue_serivce.Service.Config.{QueueService}
use team_10_queue_serivce.Service.Join.{join_queue}
use team_10_queue_serivce.Service.Offer.{accept_offer}
use team_10_queue_serivce.Service.Leave.{leave_queue}
use team_10_queue_serivce.Service.Payment.{
  process_payment, validate_right, validate_right_for_checkout,
}
use team_10_queue_serivce.Service.Views.{
  get_user_queue, get_user_queues, get_queue_stats, get_product_metrics,
}
use team_10_queue_serivce.Transport.Response.{
  MembershipResponse, Body, no_body, valid_body, membership_body, queues_body, stats_body,
  metrics_body, response_of, write_error, new_membership_response, new_right_response,
  new_user_queue_response, new_user_queues_response, new_stats_response,
  new_product_metrics_response,
}

abbrev pub Reply : Type 0
Reply = ℕ × Body

abbrev pub respond : {A : Type 0} → (A → Reply) → Result A → Reply
respond f (ok a) = f a
respond f (err e) = write_error e

-- The call of the service, and its result or its error as a response.
abbrev pub answer : {A : Type 0} → (A → Reply) → M A → M Reply
answer f m = do r ← attempt m; pure (respond f r)

-- A right that is not in the membership yet gives its token.
abbrev pub with_token : Option Right → MembershipResponse → MembershipResponse
with_token none r = r
with_token (some right) r = if r.token == empty_id then record r { token = right.token } else r

-- A sold-out product is a status of the service and a conflict of the contract.
abbrev pub joined_reply : Option Right → MembershipResponse → Reply
joined_reply right r =
    if is_sold_out r.status
    then (409, membership_body (response_of sold_out))
    else (201, membership_body (with_token right r))

unfoldable pub join : QueueService → ℕ → ℕ → Option ℤ → M Reply
unfolding new_membership_response
join s p u none = pure (400, no_body)
join s p u (some quantity) =
    answer (λ j. joined_reply j.right (new_membership_response j.membership))
      (join_queue s p u quantity)

-- The plain read of the resource; a stream repeats it.
unfoldable pub status : QueueService → ℕ → ℕ → M Reply
unfolding new_user_queue_response
status s p u =
    answer (λ q. (200, membership_body (new_user_queue_response q).1)) (get_user_queue s p u)

unfoldable pub accept : QueueService → ℕ → ℕ → Option ℤ → M Reply
unfolding new_right_response
accept s p u none = pure (400, no_body)
accept s p u (some quantity) =
    answer (λ right. (200, membership_body (new_right_response right)))
      (accept_offer s p u quantity)

unfoldable pub leave : QueueService → ℕ → ℕ → M Reply
leave s p u = answer (λ _. (204, no_body)) (leave_queue s p u)

unfoldable pub check_right : ℕ → ℕ → M Reply
check_right token u = answer (λ _. (200, valid_body)) (validate_right token u)

unfoldable pub check_right_for_checkout : ℕ → Option ℕ → M Reply
check_right_for_checkout token none = pure (400, no_body)
check_right_for_checkout token (some p) =
    if p == empty_id
    then pure (400, no_body)
    else answer (λ _. (204, no_body)) (validate_right_for_checkout token p)

-- The event of the body, whether it is payment_succeeded, and its order.
unfoldable pub right_events : QueueService → ℕ → Option (Bool × ℕ) → M Reply
right_events s token none = pure (400, no_body)
right_events s token (some (is_payment, order)) =
    if is_payment
    then answer (λ _. (202, no_body)) (process_payment s token order)
    else pure (400, no_body)

-- The plain read of the resource.
unfoldable pub user_queues : QueueService → ℕ → M Reply
unfolding new_user_queues_response
user_queues s u =
    answer (λ qs. (200, queues_body (new_user_queues_response qs))) (get_user_queues s u)

unfoldable pub queue_stats : ℕ → M Reply
unfolding new_stats_response
queue_stats p = answer (λ q. (200, stats_body (new_stats_response q))) (get_queue_stats p)

-- `average` is PostgreSQL's.
unfoldable pub product_metrics : (List (ℕ × ℕ) → Option ℕ) → ℕ → M Reply
unfolding new_product_metrics_response
product_metrics average p =
    answer (λ m. (200, metrics_body (new_product_metrics_response m)))
      (get_product_metrics average p)
