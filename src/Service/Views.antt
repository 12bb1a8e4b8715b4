-- ===== src/Service/Views.antt =====
-- membership.go, stats.go, user_queues.go and metrics.go: what users and sellers see.
use team_10_queue_serivce.Base.{ℕ, ◌+◌, ◌-◌, ◌*◌, ◌==◌, Option, List, [], ◌∷◌, not, if◌then◌else◌}
use team_10_queue_serivce.Models.Status.{queued, right_active, offer_pending, is_queued}
use team_10_queue_serivce.Models.{
  QueueMembership, QueueStats, UserQueue, ProductMetrics, empty_id, invalid_request,
}
use team_10_queue_serivce.Models.Result.{Result, ok, err}
use team_10_queue_serivce.World.{M, pure, raise, attempt, read_durable, ◌>>=◌}
use team_10_queue_serivce.Redis.Repo.{get_membership, get_queue_metrics, get_stock}
use team_10_queue_serivce.Postgres.Reports as Reports
use team_10_queue_serivce.Postgres.Reports.{count_memberships_by_status, list_memberships_by_user}
use team_10_queue_serivce.Service.Config.{QueueService}

-- The position from 1, and the wait: of the users up to this one, those whom the free units do not
-- reach. `-` stops at 0 where the source answers 0.
abbrev pub eta_at : QueueService → ℕ → ℕ → ℕ × ℕ
eta_at s position available = (position, (position - available) * s.avg_payment_time)

-- CalculateETA
unfoldable pub calculate_eta : QueueService → ℕ → ℕ → M (ℕ × ℕ)
calculate_eta s p u = do
  (rank, available) ← get_queue_metrics p u
  pure (eta_at s (rank + 1) available)

abbrev pub user_queue : QueueMembership → ℕ → ℕ → UserQueue
user_queue m position eta = record { membership = m; position = position; eta = eta }

abbrev pub positioned : QueueMembership → Result (ℕ × ℕ) → UserQueue
positioned m (ok (position, eta)) = user_queue m position eta
positioned m (err e) = user_queue m 0 0

-- withPosition: an error leaves the card without a position.
unfoldable pub with_position : QueueService → QueueMembership → M UserQueue
unfolding calculate_eta
with_position s m =
    if not (is_queued m.status)
    then pure (user_queue m 0 0)
    else do r ← attempt (calculate_eta s m.product_id m.user_id); pure (positioned m r)

unfoldable pub get_user_queue : QueueService → ℕ → ℕ → M UserQueue
unfolding with_position
get_user_queue s p u = do m ← get_membership p u; with_position s m

unfoldable pub with_positions : QueueService → List QueueMembership → M (List UserQueue)
unfolding with_position
with_positions s [] = pure []
with_positions s (m ∷ ms) = do q ← with_position s m; qs ← with_positions s ms; pure (q ∷ qs)

unfoldable pub get_user_queues : QueueService → ℕ → M (List UserQueue)
unfolding with_positions
get_user_queues s u = do
  ms ← read_durable λ d. ok (list_memberships_by_user u d)
  with_positions s ms

unfoldable pub get_queue_stats : ℕ → M QueueStats
get_queue_stats p = do
  stock ← get_stock p
  counts ← read_durable λ d. ok (count_memberships_by_status p d.memberships)
  pure (record {
    waiting = counts queued;
    holding_right = counts right_active;
    pending_offer = counts offer_pending;
    available = stock.available_units;
    product_count = stock.product_count;
  })

-- GetProductMetrics; `average` is PostgreSQL's.
unfoldable pub get_product_metrics : (List (ℕ × ℕ) → Option ℕ) → ℕ → M ProductMetrics
get_product_metrics average p =
    if p == empty_id
    then raise invalid_request
    else read_durable λ d. Reports.get_product_metrics average p d
