-- ===== src/Service/Leave.antt =====
-- LeaveQueue, DeclineOffer and expireActiveRight: how a participation ends without a purchase.
use team_10_queue_serivce.Base.{ℕ, Bool, true, false, Option, none, some, ltb, if◌then◌else◌}
use team_10_queue_serivce.Models.Status.{
  RightStatus, MembershipStatus, expired, queued, right_active, offer_pending, declined,
}
use team_10_queue_serivce.Models.{
  QueueMembership, Right, concurrent_join, token_expired, invalid_status,
}
use team_10_queue_serivce.World.{M, pure, raise, time_now, when, collect, ◌>>=◌, ◌>>◌}
use team_10_queue_serivce.Redis.Repo.{
  get_membership, set_right, remove_from_queue, remove_from_expiry_timer, restore_available_units,
}
use team_10_queue_serivce.Service.Config.{QueueService, upsert, expire_right_tx, with_claim}
use team_10_queue_serivce.Service.Sync.{sync_cache_state}
use team_10_queue_serivce.Service.Advance.{advance_queue}

-- The membership that every unpaid end leaves.
abbrev pub settled : ℕ → QueueMembership → QueueMembership
settled now m = record m {
  status = declined;
  available_quantity = none;
  current_token = none;
  expires_at = none;
  updated_at = now;
}

-- A deadline that has passed refuses the call; the clock is read only if there is one.
abbrev pub refuse_expired : Option ℕ → M (Unit {0})
refuse_expired none = pure tt
refuse_expired (some t) = do now ← time_now; if ltb t now then raise token_expired else pure tt

-- The right was settled before: only the cache is brought up to date.
abbrev pub refresh_settled : RightStatus → QueueService → QueueMembership → Right → M (Unit {0})
refresh_settled expired s m right = sync_cache_state s m (some right)
refresh_settled _ s m right = set_right right

-- Behind the transaction that expired the right.
unfoldable pub return_right :
    QueueService → QueueMembership → QueueMembership → Right → Bool → M (Unit {0})
return_right s m final right remove_timer = collect (sync_cache_state s final (some right)) (
    collect (when remove_timer (remove_from_expiry_timer m.product_id m.user_id)) (
      collect (when (ltb 0 m.quantity) (restore_available_units m.product_id m.quantity))
        (advance_queue s m.product_id)))

abbrev pub expire_token : QueueService → QueueMembership → Bool → Option ℕ → M (Unit {0})
expire_token s m remove_timer none = raise invalid_status
expire_token s m remove_timer (some token) = do
  now ← time_now
  (right, transitioned) ← expire_right_tx token (settled now m)
  if transitioned
      then return_right s m (settled now m) right remove_timer
      else refresh_settled right.status s (settled now m) right

-- expireActiveRight
unfoldable pub expire_active_right : QueueService → QueueMembership → Bool → M (Unit {0})
unfolding return_right
expire_active_right s m remove_timer = expire_token s m remove_timer m.current_token

-- Behind the checks of leaveQueue: the durable write, and then the cache.
unfoldable pub settle_leave : QueueService → QueueMembership → ℕ → Bool → Bool → M (Unit {0})
settle_leave s m returned from_queue from_timer = do
  now ← time_now
  upsert (settled now m)
  collect (sync_cache_state s (settled now m) none) (
      collect (when from_queue (remove_from_queue m.product_id m.user_id)) (
        collect (when from_timer (remove_from_expiry_timer m.product_id m.user_id)) (
          when (ltb 0 returned) (
            collect (restore_available_units m.product_id returned)
              (advance_queue s m.product_id)))))

abbrev pub leave_by_status :
    MembershipStatus → Option ℕ → Bool → QueueService → QueueMembership → M (Unit {0})
leave_by_status queued available true s m = raise invalid_status
leave_by_status queued available false s m = settle_leave s m 0 true false
leave_by_status offer_pending none offer_only s m = raise invalid_status
leave_by_status offer_pending (some returned) offer_only s m = settle_leave s m returned false true
leave_by_status right_active available true s m = raise invalid_status
leave_by_status right_active available false s m = expire_active_right s m true
leave_by_status _ available offer_only s m = raise invalid_status

-- The part of leaveQueue under the claim.
unfoldable pub leave_claimed : QueueService → ℕ → ℕ → Bool → M (Unit {0})
unfolding settle_leave expire_active_right
leave_claimed s p u offer_only = do
  m ← get_membership p u
  refuse_expired m.expires_at
  leave_by_status m.status m.available_quantity offer_only s m

unfoldable pub leave_with : QueueService → ℕ → ℕ → Bool → M (Unit {0})
unfolding with_claim leave_claimed
leave_with s p u offer_only =
    with_claim p u (raise concurrent_join) (leave_claimed s p u offer_only)

unfoldable pub leave_queue : QueueService → ℕ → ℕ → M (Unit {0})
unfolding leave_with
leave_queue s p u = leave_with s p u false

unfoldable pub decline_offer : QueueService → ℕ → ℕ → M (Unit {0})
unfolding leave_with
decline_offer s p u = leave_with s p u true
