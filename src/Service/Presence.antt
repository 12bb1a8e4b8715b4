-- ===== src/Service/Presence.antt =====
-- presence.go: RefreshUserPresence.
use team_10_queue_serivce.Base.{ℕ, ◌+◌, Bool, true, false, not, ◌||◌, List, [], ◌∷◌, if◌then◌else◌}
use team_10_queue_serivce.Models.Status.{is_queued}
use team_10_queue_serivce.Models.{
  Error, token_not_found, membership_not_found, joined, QueueMembership, presence_claim_product,
}
use team_10_queue_serivce.Models.Result.{Result, ok, err}
use team_10_queue_serivce.World.{M, pure, raise, attempt, collect, time_now, ◌>>=◌, ◌>>◌}
use team_10_queue_serivce.Redis.Repo.{
  list_queued_products, set_user_presence_deadline, get_membership, remove_from_queue,
  refresh_expiry_timer,
}
use team_10_queue_serivce.Service.Config.{QueueService, with_claim}

-- errors.Is(err, ErrTokenNotFound) || errors.Is(err, ErrMembershipNotFound)
abbrev pub is_missing : Error → Bool
is_missing token_not_found = true
is_missing membership_not_found = true
is_missing (joined a b) = is_missing a || is_missing b
is_missing _ = false

-- Behind the reading of the membership. A timer that the worker owns stays as it is.
abbrev pub refresh_membership : ℕ → ℕ → ℕ → Result QueueMembership → M (Unit {0})
refresh_membership p u deadline (ok m) =
    if not (is_queued m.status)
    then remove_from_queue p u
    else do refreshed ← refresh_expiry_timer p u deadline; pure tt
refresh_membership p u deadline (err e) = if is_missing e then remove_from_queue p u else raise e

unfoldable pub refresh_product : ℕ → ℕ → ℕ → M (Unit {0})
refresh_product p u deadline = do
  m ← attempt (get_membership p u)
  refresh_membership p u deadline m

-- The errors of the products are joined.
unfoldable pub refresh_products : ℕ → ℕ → List ℕ → M (Unit {0})
unfolding refresh_product
refresh_products u deadline [] = pure tt
refresh_products u deadline (p ∷ ps) =
    collect (refresh_product p u deadline) (refresh_products u deadline ps)

unfoldable pub refresh_user_presence : QueueService → ℕ → M (Unit {0})
unfolding refresh_products
refresh_user_presence s u = with_claim presence_claim_product u (pure tt) (do
  products ← list_queued_products u
  now ← time_now
  set_user_presence_deadline u (now + s.presence_timeout)
  refresh_products u (now + s.presence_timeout) products)
