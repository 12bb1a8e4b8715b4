-- ===== src/Examples/Joins.antt =====
-- The theorems on claims, slots and repeated joins, applied to the shop.
use team_10_queue_serivce.Base.{
  ◌*◌, ◌≡◌, ◌≢◌, ◌≤◌, ◌⊎◌, inl, refl, arith, some, none, true, false, length, contains,
}
use team_10_queue_serivce.Base.Int.{pos}
use team_10_queue_serivce.Models.{second}
use team_10_queue_serivce.Models.Result.{ok}
use team_10_queue_serivce.Redis.State.{Cache}
use team_10_queue_serivce.Redis.Scripts.{
  refused, claim_set_nx, release_membership_claim_script, occupy_queue_slot_script,
}
use team_10_queue_serivce.Redis.Claims.{claim_set_nx-excludes, occupy_queue_slot_script-limit}
use team_10_queue_serivce.Service.Join.{join_queue}
use team_10_queue_serivce.Idempotency.{join_queue-waiting, join_queue-holding}
use team_10_queue_serivce.Examples.Shop.{service, shop_cache, shop, member_5, member_8, right_of_5}

abbrev claimed : Cache
claimed = (claim_set_nx 7 8 500 (40 * second) (30 * second) shop_cache).1

claimed_lem : claim_set_nx 7 8 500 (40 * second) (30 * second) shop_cache ≡ (true, claimed)
unfolding claim_set_nx
claimed_lem = refl

claim_set_nx-excludes_example :
    (claim_set_nx 7 8 501 (60 * second) (30 * second) claimed ≡ (false, claimed))
    × (release_membership_claim_script 7 8 501 (60 * second) claimed ≡ claimed)
claim_set_nx-excludes_example =
    claim_set_nx-excludes 7 8 500 (40 * second) (30 * second) shop_cache claimed claimed_lem 501
      (60 * second) (30 * second) (omega arith) (omega arith)

occupy_queue_slot_script-limit_example :
    let out = occupy_queue_slot_script 8 9 1 shop_cache in
    (length (out.1.slots 8) ≤ 1)
    × (((out.0 ≡ refused) × (out.1 ≡ shop_cache))
        ⊎ ((out.0 ≢ refused) × (contains 9 (out.1.slots 8) ≡ true)))
occupy_queue_slot_script-limit_example =
    occupy_queue_slot_script-limit 8 9 1 shop_cache (omega arith)

join_queue-waiting_example :
    join_queue service 7 8 (pos 3) shop
    ≡ (ok (record { membership = member_8; right = none }), shop)
join_queue-waiting_example = join_queue-waiting shop refl service 7 8 2 member_8 refl (inl refl)

join_queue-holding_example :
    join_queue service 7 5 (pos 3) shop
    ≡ (ok (record { membership = member_5; right = some right_of_5 }), shop)
join_queue-holding_example =
    join_queue-holding shop refl service 7 5 2 member_5 refl 100 right_of_5 refl refl refl
