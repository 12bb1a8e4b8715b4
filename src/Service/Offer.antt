-- ===== src/Service/Offer.antt =====
-- AcceptOffer: an offer turns into a right for as many units as the user takes.
use team_10_queue_serivce.Base.{ℕ, zero, suc, ◌-◌, Option, none, some, ltb, if◌then◌else◌}
use team_10_queue_serivce.Base.Int.{ℤ, pos, negsuc}
use team_10_queue_serivce.Models.Status.{
  MembershipStatus, right_active, offer_pending, is_offer_pending,
}
use team_10_queue_serivce.Models.{
  QueueMembership, Right, quantity_invalid, quantity_exceeded, invalid_status, concurrent_join,
}
use team_10_queue_serivce.World.{M, pure, raise, time_now, new_uuid, ◌>>=◌, ◌>>◌}
use team_10_queue_serivce.Redis.Repo.{get_membership, get_right, restore_available_units}
use team_10_queue_serivce.Service.Config.{
  QueueService, issue_right, with_claim, join_await_attempts,
}
use team_10_queue_serivce.Service.Sync.{sync_cache_state}
use team_10_queue_serivce.Service.Advance.{new_right, holding, advance_queue}
use team_10_queue_serivce.Service.Join.{sleep}
use team_10_queue_serivce.Service.Leave.{refuse_expired}

-- The membership of a user who takes `quantity` of the units on offer.
abbrev pub accepting : ℕ → QueueMembership → QueueMembership
accepting quantity m = record m { quantity = quantity; available_quantity = none }

-- Behind the checks of AcceptOffer; `returned` units are not taken.
unfoldable pub settle_accept : QueueService → QueueMembership → ℕ → ℕ → M Right
settle_accept s m quantity returned = do
  now ← time_now
  token ← new_uuid
  let right = new_right s token now m quantity
  let m' = holding right now (accepting quantity m)
  issue_right right m'
  sync_cache_state s m' (some right)
  if ltb 0 returned
      then (restore_available_units m.product_id returned
          >> advance_queue s m.product_id
          >> pure right)
      else pure right

abbrev pub accept_available : Option ℕ → QueueService → QueueMembership → ℕ → M Right
accept_available none s m quantity = raise invalid_status
accept_available (some available) s m quantity =
    if ltb available quantity
    then raise quantity_exceeded
    else settle_accept s m quantity (available - quantity)

-- The part of AcceptOffer under the claim.
unfoldable pub accept_claimed : QueueService → ℕ → ℕ → ℕ → M Right
unfolding settle_accept
accept_claimed s p u quantity = do
  m ← get_membership p u
  refuse_expired m.expires_at
  if is_offer_pending m.status
      then accept_available m.available_quantity s m quantity
      else raise invalid_status

abbrev pub await_by_status : MembershipStatus → Option ℕ → M Right → M Right
await_by_status right_active (some token) rest = get_right token
await_by_status offer_pending token rest = rest
await_by_status _ token rest = raise invalid_status

unfoldable pub await_concurrent_accept : ℕ → QueueService → ℕ → ℕ → M Right
await_concurrent_accept zero s p u = raise concurrent_join
await_concurrent_accept (suc left) s p u =
    let rest = await_concurrent_accept left s p u in
    do m ← get_membership p u; await_by_status m.status m.current_token (sleep s left >> rest)

unfoldable pub accept_positive : QueueService → ℕ → ℕ → ℕ → M Right
unfolding with_claim accept_claimed await_concurrent_accept
accept_positive s p u quantity =
    with_claim p u (await_concurrent_accept join_await_attempts s p u)
      (accept_claimed s p u quantity)

unfoldable pub accept_offer : QueueService → ℕ → ℕ → ℤ → M Right
unfolding accept_positive
accept_offer s p u (pos zero) = raise quantity_invalid
accept_offer s p u (pos (suc n)) = accept_positive s p u (suc n)
accept_offer s p u (negsuc n) = raise quantity_invalid
