-- ===== src/Service/Payment.antt =====
-- ProcessPayment and the validation of rights.
use team_10_queue_serivce.Base.{ℕ, Bool, ltb, ◌==◌, if◌then◌else◌}
use team_10_queue_serivce.Models.Status.{RightStatus, active, expired, used}
use team_10_queue_serivce.Models.{
  Right, is_token_not_found, token_used, token_expired, invalid_status, forbidden,
}
use team_10_queue_serivce.Models.Result.{Result, ok, err}
use team_10_queue_serivce.World.{M, pure, raise, attempt, time_now, when, collect, ◌>>=◌}
use team_10_queue_serivce.Redis.Repo.{
  commit_purchase, set_right, get_right, mark_purchased_if_current_token,
}
use team_10_queue_serivce.Service.Config.{QueueService, use_right_tx, get_durable_right}
use team_10_queue_serivce.Service.Advance.{advance_queue}

-- Behind the transaction: the cache, and the next in the queue.
abbrev pub settle_payment : QueueService → Right → Bool → ℕ → M (Unit {0})
settle_payment s right transitioned now =
    collect (when transitioned (commit_purchase right.product_id right.quantity)) (
      collect (set_right right) (
        collect (mark_purchased_if_current_token right now >>= λ _. pure tt)
          (advance_queue s right.product_id)))

unfoldable pub process_payment : QueueService → ℕ → ℕ → M (Unit {0})
process_payment s token order = do
  now ← time_now
  (right, transitioned) ← use_right_tx token order now
  settle_payment s right transitioned now

-- The durable right, which is cached again; a failure to cache it is only logged.
unfoldable pub refetch_right : ℕ → M Right
refetch_right token = do
  right ← get_durable_right token
  cached ← attempt (set_right right)
  pure right

abbrev pub or_refetch : ℕ → Result Right → M Right
or_refetch token (ok right) = pure right
or_refetch token (err e) = if is_token_not_found e then refetch_right token else raise e

-- The cached right, or on a miss the durable one.
unfoldable pub fetch_right : ℕ → M Right
unfolding is_token_not_found refetch_right
fetch_right token = attempt (get_right token) >>= or_refetch token

abbrev pub by_right_status : RightStatus → Right → M Right
by_right_status used right = raise token_used
by_right_status expired right = raise token_expired
by_right_status active right = do
  now ← time_now
  if ltb now right.expires_at then pure right else raise token_expired
by_right_status (RightStatus.other t) right = raise invalid_status

unfoldable pub get_active_right : ℕ → M Right
unfolding fetch_right
get_active_right token = do right ← fetch_right token; by_right_status right.status right

unfoldable pub validate_right : ℕ → ℕ → M Right
unfolding get_active_right
validate_right token u = do
  right ← get_active_right token
  if right.user_id == u then pure right else raise forbidden

unfoldable pub validate_right_for_checkout : ℕ → ℕ → M Right
unfolding get_active_right
validate_right_for_checkout token p = do
  right ← get_active_right token
  if right.product_id == p then pure right else raise forbidden
