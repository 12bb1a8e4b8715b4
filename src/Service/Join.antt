-- ===== src/Service/Join.antt =====
-- JoinQueue: the entry of a user into the queue of a product.
use team_10_queue_serivce.Base.{ℕ, zero, suc, Bool, Option, none, some, ltb, ◌==◌, if◌then◌else◌}
use team_10_queue_serivce.Base.Int.{ℤ, pos, negsuc}
use team_10_queue_serivce.Models.Status.{
  MembershipStatus, queued, right_active, offer_pending, sold_out, is_queued,
}
use team_10_queue_serivce.Models.{
  QueueMembership, Right, ProductStock, is_token_not_found, quantity_invalid, concurrent_join,
  cancelled, queue_limit_reached,
}
use team_10_queue_serivce.Models.Result.{Result, ok, err, with_rollback}
use team_10_queue_serivce.World.{M, pure, raise, attempt, time_now, new_uuid, when, ◌>>=◌, ◌>>◌}
use team_10_queue_serivce.Redis.Scripts.{Allocation}
use team_10_queue_serivce.Redis.Repo.{
  init_stock, try_allocate, enqueue, get_membership, get_right, restore_available_units,
  try_occupy_queue_slot, release_queue_slot,
}
use team_10_queue_serivce.Service.Config.{
  QueueService, get_initial_stock, save_stock, issue_right, upsert, with_claim, join_await_attempts,
}
use team_10_queue_serivce.Service.Sync.{sync_cache_state}
use team_10_queue_serivce.Service.Advance.{new_right, holding, offered, with_status}

-- What JoinQueue answers.
pub record Joined : Type 0 where
  pub membership : QueueMembership
  pub right : Option Right

-- The status that an existing membership answers by: with a right, without one, or not at all.
abbrev pub answer_existing : MembershipStatus → Option ℕ → QueueMembership → M (Option Joined)
answer_existing right_active (some token) m = do
  right ← get_right token
  pure (some (record { membership = m; right = some right }))
answer_existing queued token m = pure (some (record { membership = m; right = none }))
answer_existing offer_pending token m = pure (some (record { membership = m; right = none }))
answer_existing _ token m = pure none

abbrev pub answer_found : Result QueueMembership → M (Option Joined)
answer_found (ok m) = answer_existing m.status m.current_token m
answer_found (err e) = if is_token_not_found e then pure none else raise e

-- `none`: the user has to enter anew.
unfoldable pub check_idempotency : ℕ → ℕ → M (Option Joined)
unfolding is_token_not_found
check_idempotency p u = attempt (get_membership p u) >>= answer_found

abbrev pub others_act : QueueService → ℕ → M (Unit {0})
others_act s n w = (ok tt, record w { store = s.others n w.store })

-- While an attempt sleeps, others act on the stores.
abbrev pub sleep : QueueService → ℕ → M (Unit {0})
sleep s n = if s.is_cancelled n then raise cancelled else others_act s n

abbrev pub unless_joined : Option Joined → M Joined → M Joined
unless_joined (some j) m = pure j
unless_joined none m = m

-- `left` attempts of the request that lost the claim.
unfoldable pub await_concurrent_join : ℕ → QueueService → ℕ → ℕ → M Joined
unfolding check_idempotency
await_concurrent_join zero s p u = raise concurrent_join
await_concurrent_join (suc left) s p u =
    let rest = await_concurrent_join left s p u in
    check_idempotency p u >>= λ existing. unless_joined existing (sleep s left >> rest)

abbrev pub after_restore : {A : Type 0} → ℕ → ℕ → Result A → M A
after_restore p quantity (ok a) = pure a
after_restore p quantity (err e) = do
  undone ← attempt (restore_available_units p quantity)
  raise (with_rollback e undone)

-- Units go back if the durable write failed, and the errors are joined.
unfoldable pub or_restore : {A : Type 0} → ℕ → ℕ → M A → M A
or_restore p quantity m = attempt m >>= after_restore p quantity

-- The three ways through processAllocation.
unfoldable pub grant_right : QueueService → QueueMembership → ℕ → M Joined
unfolding or_restore
grant_right s m quantity = do
  now ← time_now
  token ← new_uuid
  let right = new_right s token now m quantity
  or_restore m.product_id quantity (issue_right right (holding right now m))
  sync_cache_state s (holding right now m) (some right)
  pure (record { membership = holding right now m; right = some right })

unfoldable pub make_offer : QueueService → QueueMembership → ℕ → M Joined
unfolding or_restore
make_offer s m quantity = do
  now ← time_now
  or_restore m.product_id quantity (upsert (offered s quantity now m))
  sync_cache_state s (offered s quantity now m) none
  pure (record { membership = offered s quantity now m; right = none })

unfoldable pub settle_without_units : QueueService → QueueMembership → MembershipStatus → M Joined
settle_without_units s m status = do
  now ← time_now
  upsert (with_status status now m)
  when (is_queued status) (enqueue m.product_id m.user_id)
  sync_cache_state s (with_status status now m) none
  pure (record { membership = with_status status now m; right = none })

unfoldable pub process_allocation : QueueService → QueueMembership → Allocation → M Joined
unfolding grant_right make_offer settle_without_units
process_allocation s m a =
    if a.allocated == m.quantity
    then grant_right s m a.allocated
    else if ltb 0 a.available
    then make_offer s m a.available
    else settle_without_units s m (if a.is_sold_out then sold_out else queued)

abbrev pub new_membership : ℕ → ℕ → ℕ → ℕ → QueueMembership
new_membership p u quantity now = record {
  id = 0;
  product_id = p;
  user_id = u;
  status = MembershipStatus.other 0;
  quantity = quantity;
  available_quantity = none;
  current_token = none;
  expires_at = none;
  created_at = now;
  updated_at = 0;
}

abbrev pub initial_row : ℕ → ℕ → ℕ → ProductStock
initial_row p total now = record {
  product_id = p;
  product_count = total;
  total_stock = total;
  updated_at = now;
}

-- The part of JoinQueue behind the slot, with what AvitoBackend answered.
unfoldable pub enter_with : QueueService → ℕ → ℕ → ℕ → ℕ → M Joined
unfolding process_allocation
enter_with s p u quantity total = do
  init_stock p total
  stock_time ← time_now
  save_stock (initial_row p total stock_time)
  allocation ← try_allocate p quantity
  created ← time_now
  process_allocation s (new_membership p u quantity created) allocation

unfoldable pub enter : QueueService → ℕ → ℕ → ℕ → M Joined
unfolding enter_with
enter s p u quantity = get_initial_stock s p >>= enter_with s p u quantity

abbrev pub after_release_slot : {A : Type 0} → Bool → ℕ → ℕ → Result A → M A
after_release_slot fresh p u (ok a) = pure a
after_release_slot fresh p u (err e) = do
  released ← attempt (when fresh (release_queue_slot u p))
  raise e

-- A fresh slot goes back if the entry failed.
unfoldable pub or_release_slot : {A : Type 0} → Bool → ℕ → ℕ → M A → M A
or_release_slot fresh p u m = attempt m >>= after_release_slot fresh p u

-- Behind the reservation of a slot: whether it was granted, and whether it is fresh.
abbrev pub enter_slot : QueueService → ℕ → ℕ → ℕ → Bool × Bool → M Joined
enter_slot s p u quantity (granted, fresh) =
    if granted
    then or_release_slot fresh p u (enter s p u quantity)
    else raise (queue_limit_reached s.max_active_queues)

-- The part of JoinQueue under the claim.
unfoldable pub join_claimed : QueueService → ℕ → ℕ → ℕ → M Joined
unfolding enter or_release_slot check_idempotency
join_claimed s p u quantity = do
  existing ← check_idempotency p u
  unless_joined existing
      (try_occupy_queue_slot u p s.max_active_queues >>= enter_slot s p u quantity)

unfoldable pub join_positive : QueueService → ℕ → ℕ → ℕ → M Joined
unfolding join_claimed with_claim await_concurrent_join
join_positive s p u quantity = do
  existing ← check_idempotency p u
  unless_joined existing (
      with_claim p u (await_concurrent_join join_await_attempts s p u)
        (join_claimed s p u quantity))

-- JoinQueue, with the quantity that the client sent.
unfoldable pub join_queue : QueueService → ℕ → ℕ → ℤ → M Joined
unfolding join_positive
join_queue s p u (pos zero) = raise quantity_invalid
join_queue s p u (pos (suc n)) = join_positive s p u (suc n)
join_queue s p u (negsuc n) = raise quantity_invalid
