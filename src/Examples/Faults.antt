-- ===== src/Examples/Faults.antt =====
-- Runs of the shop: a decline whose fourth call fails, repeated, and keys of timers.
use team_10_queue_serivce.Base.{◌≡◌, refl, ◌+◌, [], ◌∷◌, some, true, false}
use team_10_queue_serivce.World.{World, call, time_now, new_uuid}
use team_10_queue_serivce.Models.Status.{is_terminal}
use team_10_queue_serivce.Redis.Scripts.{
  restore_available_units_script, init_stock_script, allocate_script, occupy_queue_slot_script,
  pop_and_allocate_script, remove_from_queue_script, claim_set_nx, release_membership_claim_script,
}
use team_10_queue_serivce.Redis.Repo.{
  init_stock, try_allocate, try_occupy_queue_slot, release_queue_slot, get_membership,
  set_membership, publish_event, remove_from_expiry_timer, add_to_expiry_timer, set_right,
  restore_available_units, pop_and_allocate, claim_membership, release_membership_claim,
}
use team_10_queue_serivce.Postgres.Rows.{upsert_membership, insert_right, save_initial_stock}
use team_10_queue_serivce.Postgres.Rights.{issue_right_and_upsert_membership}
use team_10_queue_serivce.Service.Config.{
  with_claim, upsert, issue_right, get_initial_stock, save_stock,
}
use team_10_queue_serivce.Service.Sync.{sync_cache_state}
use team_10_queue_serivce.Service.Advance.{
  advance_queue, advance_loop, advance_claimed, apply_advance_step, advance_right, advance_offer,
  or_rollback,
}
use team_10_queue_serivce.Service.Leave.{decline_offer, leave_with, leave_claimed, settle_leave}
use team_10_queue_serivce.Oversell.{exactly, held, pool, physical}
use team_10_queue_serivce.Examples.Shop.{service, shop_with, opening}
use team_10_queue_serivce.Base.Int.{pos}
use team_10_queue_serivce.Service.Join.{
  join_queue, join_positive, check_idempotency, join_claimed, or_release_slot, enter, enter_with,
  process_allocation, grant_right, or_restore,
}
use team_10_queue_serivce.Models.{is_token_not_found}
use team_10_queue_serivce.Service.Keys.{expiry_key, parse_expired_key, parse_expired_key-expiry_key}

-- The key "7:5".
key_lem : parse_expired_key (55 ∷ 58 ∷ 53 ∷ []) ≡ some (55 ∷ [], 53 ∷ [])
unfolding parse_expired_key
key_lem = refl

parse_expired_key-expiry_key_example :
    parse_expired_key (expiry_key (55 ∷ []) (53 ∷ [])) ≡ some (55 ∷ [], 53 ∷ [])
parse_expired_key-expiry_key_example = parse_expired_key-expiry_key (55 ∷ []) (53 ∷ []) refl

-- User 6 declines twice; the first time, the cached membership is not written.
abbrev declined_twice : World
declined_twice =
    (decline_offer service 7 6
      (decline_offer service 7 6 (shop_with (false ∷ false ∷ false ∷ true ∷ []))).1).1

-- Five units are promised then, of three.
declined_twice_lem :
    (held 7 declined_twice.store.durable + pool (exactly 3) 7 declined_twice.store.cache ≡ 5)
    × (physical (exactly 3) 7 declined_twice.store.durable ≡ 3)
unfolding decline_offer leave_with with_claim leave_claimed settle_leave sync_cache_state upsert
    advance_queue advance_loop advance_claimed apply_advance_step advance_right advance_offer
    or_rollback issue_right call time_now new_uuid get_membership set_membership publish_event
    remove_from_expiry_timer add_to_expiry_timer set_right restore_available_units
    restore_available_units_script pop_and_allocate pop_and_allocate_script remove_from_queue_script
    claim_membership claim_set_nx release_membership_claim release_membership_claim_script
    is_terminal upsert_membership insert_right issue_right_and_upsert_membership
declined_twice_lem = (refl, refl)

-- AvitoBackend answers 3, but the row is not saved; at the next entry it answers 1.
abbrev shrunk : World
shrunk =
    (join_queue (record service { initial_stock = λ q. 1 }) 7 9 (pos 1)
      (join_queue service 7 8 (pos 1) (record opening {
        faults = false ∷ false ∷ false ∷ false ∷ false ∷ false ∷ true ∷ [];
      })).1).1

-- Three units are promised then, of one.
shrunk_lem :
    (held 7 shrunk.store.durable + pool (exactly 3) 7 shrunk.store.cache ≡ 3)
    × (physical (exactly 3) 7 shrunk.store.durable ≡ 1)
unfolding join_queue join_positive check_idempotency with_claim join_claimed or_release_slot enter
    enter_with process_allocation grant_right or_restore issue_right get_initial_stock init_stock
    init_stock_script save_stock save_initial_stock try_allocate allocate_script call time_now
    new_uuid get_membership set_membership publish_event add_to_expiry_timer set_right
    claim_membership claim_set_nx release_membership_claim release_membership_claim_script
    try_occupy_queue_slot occupy_queue_slot_script release_queue_slot sync_cache_state is_terminal
    upsert_membership insert_right issue_right_and_upsert_membership is_token_not_found
shrunk_lem = (refl, refl)
