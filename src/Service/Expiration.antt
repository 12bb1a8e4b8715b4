-- ===== src/Service/Expiration.antt =====
-- expiration.go: the worker that ends what has run out of time.
use team_10_queue_serivce.Base.{
  ℕ, ◌+◌, ◌*◌, Bool, true, false, List, [], ◌∷◌, Option, none, some, ltb, if◌then◌else◌, get_or,
}
use team_10_queue_serivce.Models.Status.{
  MembershipStatus, queued, right_active, offer_pending, declined,
}
use team_10_queue_serivce.Models.{
  QueueMembership, ExpiryClaim, concurrent_join, invalid_status, is_invalid_status,
  presence_claim_product, second,
}
use team_10_queue_serivce.Models.Result.{Result, ok, err}
use team_10_queue_serivce.World.{M, pure, raise, attempt, time_now, when, collect, ◌>>=◌, ◌>>◌}
use team_10_queue_serivce.Redis.Repo.{
  get_membership, remove_from_queue, restore_available_units, add_to_expiry_timer,
  get_user_presence_deadline, reclaim_stale_expired, claim_expired, ack_expired, nack_expired,
}
use team_10_queue_serivce.Service.Config.{QueueService, upsert, with_claim}
use team_10_queue_serivce.Service.Sync.{sync_cache_state}
use team_10_queue_serivce.Service.Advance.{advance_queue}
use team_10_queue_serivce.Service.Leave.{settled, expire_active_right}

abbrev pub expiration_lease : ℕ
expiration_lease = 30 * second

abbrev pub expiration_batch_size : ℕ
expiration_batch_size = 100

abbrev pub expiration_retry_delay : ℕ
expiration_retry_delay = second

-- expireQueuedMembership
unfoldable pub expire_queued_membership : QueueService → QueueMembership → ℕ → M (Unit {0})
expire_queued_membership s m now = do
  let final = record m { status = declined; updated_at = now }
  upsert final
  collect (sync_cache_state s final none) (remove_from_queue m.product_id m.user_id)

abbrev pub while_present : QueueService → QueueMembership → ℕ → Option ℕ → M (Unit {0})
while_present s m now none = expire_queued_membership s m now
while_present s m now (some deadline) =
    if ltb now deadline
    then add_to_expiry_timer m.product_id m.user_id deadline
    else expire_queued_membership s m now

-- handleQueuedPresenceExpiry
unfoldable pub handle_queued_presence_expiry : QueueService → QueueMembership → ℕ → M (Unit {0})
unfolding expire_queued_membership with_claim
handle_queued_presence_expiry s m now =
    with_claim presence_claim_product m.user_id (raise concurrent_join)
      (get_user_presence_deadline m.user_id >>= while_present s m now)

abbrev pub expire_offer_of : Option ℕ → QueueService → QueueMembership → ℕ → M (Unit {0})
expire_offer_of none s m now = raise invalid_status
expire_offer_of (some returned) s m now = do
  upsert (settled now m)
  collect (sync_cache_state s (settled now m) none) (
      collect (when (ltb 0 returned) (restore_available_units m.product_id returned))
        (advance_queue s m.product_id))

-- expirePendingOffer
unfoldable pub expire_pending_offer : QueueService → QueueMembership → ℕ → M (Unit {0})
expire_pending_offer s m now = expire_offer_of m.available_quantity s m now

-- A right that another path has settled is no failure.
abbrev pub settle_right : Result (Unit {0}) → M (Unit {0})
settle_right (ok tt) = pure tt
settle_right (err e) = if is_invalid_status e then pure tt else raise e

abbrev pub expire_by_status : MembershipStatus → QueueService → QueueMembership → ℕ → M (Unit {0})
expire_by_status queued s m now = handle_queued_presence_expiry s m now
expire_by_status right_active s m now = attempt (expire_active_right s m false) >>= settle_right
expire_by_status _ s m now = expire_pending_offer s m now

abbrev pub is_open : MembershipStatus → Bool
is_open queued = true
is_open right_active = true
is_open offer_pending = true
is_open _ = false

abbrev pub lacks_deadline : MembershipStatus → Option ℕ → Bool
lacks_deadline queued t = false
lacks_deadline _ none = true
lacks_deadline _ (some t) = false

-- The part of handleExpiredKey behind the reading of the membership. A claim whose deadline is older
-- than the current state only restores the timer of that state.
unfoldable pub handle_membership : QueueService → ExpiryClaim → QueueMembership → ℕ → M (Unit {0})
unfolding handle_queued_presence_expiry expire_pending_offer is_invalid_status
handle_membership s claim m now =
    if is_open m.status
    then if lacks_deadline m.status m.expires_at
      then raise invalid_status
      else if ltb claim.deadline m.updated_at
      then add_to_expiry_timer claim.product_id claim.user_id
          (get_or (now + s.presence_timeout) m.expires_at)
      else expire_by_status m.status s m now
    else pure tt

-- handleExpiredKey; a timer's key is the pair that parseExpiredKey finds in its text.
unfoldable pub handle_expired_key : QueueService → ExpiryClaim → ℕ → M (Unit {0})
unfolding handle_membership with_claim
handle_expired_key s claim now =
    with_claim claim.product_id claim.user_id (raise concurrent_join)
      (get_membership claim.product_id claim.user_id >>= λ m. handle_membership s claim m now)

-- The loop of ProcessExpirations: the claims that were handled, and those that failed.
unfoldable pub handle_claims :
    QueueService → List ExpiryClaim → ℕ → M (List ExpiryClaim × List ExpiryClaim)
unfolding handle_expired_key
handle_claims s [] now = pure ([], [])
handle_claims s (claim ∷ claims) now = do
  r ← attempt (handle_expired_key s claim now)
  (handled, failed) ← handle_claims s claims now
  elim r [ ok u ↦ pure (claim ∷ handled, failed) | err e ↦ pure (handled, claim ∷ failed) ]

-- ProcessExpirations; failures to reclaim, to acknowledge and to reschedule are only logged.
unfoldable pub process_expirations : QueueService → M (Unit {0})
unfolding handle_claims
process_expirations s = do
  now ← time_now
  rescued ← attempt (reclaim_stale_expired now)
  claims ← claim_expired now expiration_lease expiration_batch_size
  (handled, failed) ← handle_claims s claims now
  acked ← attempt (ack_expired handled)
  nacked ← attempt (nack_expired failed (now + expiration_retry_delay))
  pure tt
