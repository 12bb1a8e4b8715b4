-- ===== src/Service/Advance.antt =====
-- AdvanceQueue: the loop that serves the head of a product's queue while units are free.
use team_10_queue_serivce.Base.{
  ℕ, zero, suc, ◌+◌, Bool, true, false, Option, none, some, ltb, if◌then◌else◌, length,
}
use team_10_queue_serivce.Models.Status.{
  MembershipStatus, active, right_active, offer_pending, sold_out, is_queued,
}
use team_10_queue_serivce.Models.{QueueMembership, Right, concurrent_join}
use team_10_queue_serivce.Models.Result.{Result, ok, err, with_rollback}
use team_10_queue_serivce.World.{
  World, M, pure, raise, attempt, finally, time_now, new_uuid, when, collect, ◌>>=◌, ◌>>◌,
}
use team_10_queue_serivce.Redis.Scripts.{Popped}
use team_10_queue_serivce.Redis.Repo.{
  pop_and_allocate, restore_available_units, requeue, get_membership, claim_membership,
  release_membership_claim,
}
use team_10_queue_serivce.Service.Config.{QueueService, membership_claim_ttl, issue_right, upsert}
use team_10_queue_serivce.Service.Sync.{sync_cache_state}

unfoldable pub rollback_advance : ℕ → ℕ → ℕ → ℕ → M (Unit {0})
rollback_advance p u quantity score =
    collect (when (ltb 0 quantity) (restore_available_units p quantity)) (requeue p u score)

abbrev pub after_rollback : {A : Type 0} → ℕ → ℕ → ℕ → ℕ → Result A → M A
after_rollback p u quantity score (ok a) = pure a
after_rollback p u quantity score (err e) = do
  undone ← attempt (rollback_advance p u quantity score)
  raise (with_rollback e undone)

-- A failed step is rolled back, and the errors of both are joined.
unfoldable pub or_rollback : {A : Type 0} → ℕ → ℕ → ℕ → ℕ → M A → M A
unfolding rollback_advance
or_rollback p u quantity score m = attempt m >>= after_rollback p u quantity score

-- The right that a transition issues now.
abbrev pub new_right : QueueService → ℕ → ℕ → QueueMembership → ℕ → Right
new_right s token now m quantity = record {
  token = token;
  user_id = m.user_id;
  product_id = m.product_id;
  quantity = quantity;
  status = active;
  order_id = none;
  created_at = now;
  expires_at = now + s.payment_ttl;
  used_at = none;
}

-- The membership that holds it.
abbrev pub holding : Right → ℕ → QueueMembership → QueueMembership
holding right now m = record m {
  status = right_active;
  current_token = some right.token;
  expires_at = some right.expires_at;
  updated_at = now;
}

abbrev pub offered : QueueService → ℕ → ℕ → QueueMembership → QueueMembership
offered s quantity now m = record m {
  status = offer_pending;
  available_quantity = some quantity;
  expires_at = some (now + s.offer_ttl);
  updated_at = now;
}

abbrev pub with_status : MembershipStatus → ℕ → QueueMembership → QueueMembership
with_status status now m = record m { status = status; updated_at = now }

-- The cases of the switch in applyAdvanceStep.
unfoldable pub advance_right : QueueService → ℕ → Popped → QueueMembership → ℕ → M (Unit {0})
advance_right s p r m now = do
  token ← new_uuid
  let right = new_right s token now m r.allocated
  or_rollback p r.user_id r.allocated r.score (issue_right right (holding right now m))
  sync_cache_state s (holding right now m) (some right)

unfoldable pub advance_offer : QueueService → ℕ → Popped → QueueMembership → ℕ → M (Unit {0})
advance_offer s p r m now = do
  or_rollback p r.user_id r.available r.score (upsert (offered s r.available now m))
  sync_cache_state s (offered s r.available now m) none

unfoldable pub advance_sold_out : QueueService → ℕ → Popped → QueueMembership → ℕ → M (Unit {0})
advance_sold_out s p r m now = do
  or_rollback p r.user_id 0 r.score (upsert (with_status sold_out now m))
  sync_cache_state s (with_status sold_out now m) none

abbrev pub advance_by_status :
    MembershipStatus → QueueService → ℕ → Popped → QueueMembership → ℕ → M (Unit {0})
advance_by_status right_active s p r m now = advance_right s p r m now
advance_by_status offer_pending s p r m now = advance_offer s p r m now
advance_by_status sold_out s p r m now = advance_sold_out s p r m now
advance_by_status _ s p r m now = pure tt

unfoldable pub apply_advance_step : QueueService → ℕ → Popped → M (Unit {0})
unfolding advance_right advance_offer advance_sold_out or_rollback
apply_advance_step s p r = do
  m ← or_rollback p r.user_id (r.allocated + r.available) r.score (get_membership p r.user_id)
  now ← time_now
  advance_by_status r.status s p r m now

-- The body of the loop for a head that is to change: it claims the membership, applies the step, and
-- gives the claim back.
unfoldable pub advance_claimed : QueueService → ℕ → Popped → M (Unit {0})
unfolding apply_advance_step or_rollback
advance_claimed s p r = do
  owner ← new_uuid
  or_rollback p r.user_id (r.allocated + r.available) r.score do
    won ← claim_membership p r.user_id owner membership_claim_ttl
    if won then pure tt else raise concurrent_join
  finally (apply_advance_step s p r) (release_membership_claim p r.user_id owner)

abbrev pub is_served : MembershipStatus → Bool
is_served right_active = true
is_served offer_pending = true
is_served sold_out = true
is_served _ = false

-- What the loop does with the reply of a pop; `rest` is its next round.
abbrev pub advance_round : M Bool → QueueService → ℕ → Option Popped → M Bool
advance_round rest s p none = pure true
advance_round rest s p (some r) =
    if is_queued r.status
    then pure true
    else if is_served r.status
    then (advance_claimed s p r >> rest)
    else rest

-- The loop, with a bound on its rounds; `false`: the bound was reached.
unfoldable pub advance_loop : ℕ → QueueService → ℕ → M Bool
unfolding advance_claimed
advance_loop zero s p = pure false
advance_loop (suc rounds) s p =
    let rest = advance_loop rounds s p in pop_and_allocate p >>= advance_round rest s p

-- A round either ends the loop or takes the head off the queue, so one round more than the queue is
-- long is enough.
abbrev pub rounds_for : ℕ → World → ℕ
rounds_for p w = suc (length (w.store.cache.queues p))

unfoldable pub advance_queue : QueueService → ℕ → M (Unit {0})
unfolding advance_loop
advance_queue s p w = (advance_loop (rounds_for p w) s p >>= λ _. pure tt) w
