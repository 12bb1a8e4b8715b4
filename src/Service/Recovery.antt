-- ===== src/Service/Recovery.antt =====
-- recovery.go: RecoverCache, which rebuilds Redis from PostgreSQL.
pub mod Rights
pub mod Members
use team_10_queue_serivce.Base.{ℕ, ◌-◌, List, [], ◌∷◌, Option, none, some}
use team_10_queue_serivce.Models.{ProductStock, QueueMembership, Right, RecoverySnapshot}
use team_10_queue_serivce.World.{M, pure, time_now, ◌>>=◌, ◌>>◌}
use team_10_queue_serivce.Redis.Repo.{
  reset_expiry_timers, reset_queue_slots, restore_product_state, set_membership, set_right,
  add_to_expiry_timer,
}
use team_10_queue_serivce.Postgres.Rows.{expire_rights}
use team_10_queue_serivce.Postgres.Snapshot.{load_recovery_snapshot}
use team_10_queue_serivce.Service.Config.{expire_rights_tx, upsert}
use Rights.{
  RecoveryProductState, RecoveryTimer, RecoveryRepairs, Products, no_repairs, recovery_products,
  recovery_rights, expire_orphans,
}
use Members.{apply_memberships}

-- What buildRecoveryState returns, and the rows that it has changed in place.
pub record RecoveryState : Type 0 where
  pub products : Products
  pub timers : List RecoveryTimer
  pub repairs : RecoveryRepairs
  pub memberships : List QueueMembership
  pub rights : List Right

unfoldable pub build_recovery_state : RecoverySnapshot → ℕ → M RecoveryState
unfolding recovery_products recovery_rights apply_memberships expire_orphans
build_recovery_state snapshot now = do
  let found = recovery_products snapshot.stocks ((λ p. none), no_repairs)
  let indexed =
      recovery_rights found.0 snapshot.rights
        (record { rows = []; by_token = []; claims = []; repairs = found.1 })
  (memberships, acc) ← apply_memberships now indexed.by_token snapshot.memberships (record {
    products = found.0;
    claims = indexed.claims;
    timers = [];
    repairs = indexed.repairs;
  })
  let settled = expire_orphans acc.claims (indexed.rows, acc.repairs)
  pure (record {
    products = acc.products;
    timers = acc.timers;
    repairs = settled.1;
    memberships = memberships;
    rights = settled.0;
  })

unfoldable pub settle_members : List QueueMembership → M (Unit {0})
settle_members [] = pure tt
settle_members (m ∷ ms) = do upsert m; settle_members ms

abbrev pub expire_listed : List ℕ → M (Unit {0})
expire_listed [] = pure tt
expire_listed (t ∷ ts) = expire_rights_tx (t ∷ ts)

-- applyRecoveryRepairs
unfoldable pub apply_recovery_repairs : RecoveryRepairs → M (Unit {0})
unfolding settle_members
apply_recovery_repairs repairs = do
  expire_listed repairs.expired_rights
  settle_members repairs.declined_members

-- `-` stops at 0, as the clamp does.
abbrev pub restore_known : ProductStock → Option RecoveryProductState → M (Unit {0})
restore_known stock none = pure tt
restore_known stock (some product) =
    restore_product_state stock.product_id stock.product_count
      (stock.product_count - product.reserved) product.queued_users

unfoldable pub restore_products : Products → List ProductStock → M (Unit {0})
restore_products products [] = pure tt
restore_products products (stock ∷ stocks) = do
  restore_known stock (products stock.product_id)
  restore_products products stocks

unfoldable pub cache_memberships : List QueueMembership → M (Unit {0})
cache_memberships [] = pure tt
cache_memberships (m ∷ ms) = do set_membership m; cache_memberships ms

unfoldable pub cache_rights : List Right → M (Unit {0})
cache_rights [] = pure tt
cache_rights (r ∷ rs) = do set_right r; cache_rights rs

unfoldable pub add_timers : List RecoveryTimer → M (Unit {0})
add_timers [] = pure tt
add_timers (t ∷ ts) = do add_to_expiry_timer t.product_id t.user_id t.deadline; add_timers ts

-- The writes of Redis.
unfoldable pub rebuild_cache : List ProductStock → RecoveryState → M (Unit {0})
unfolding restore_products cache_memberships cache_rights add_timers
rebuild_cache stocks state = do
  reset_expiry_timers
  reset_queue_slots
  restore_products state.products stocks
  cache_memberships state.memberships
  cache_rights state.rights
  add_timers state.timers

unfoldable pub recover_cache : M (Unit {0})
unfolding build_recovery_state apply_recovery_repairs rebuild_cache
recover_cache = do
  snapshot ← load_recovery_snapshot
  now ← time_now
  state ← build_recovery_state snapshot now
  apply_recovery_repairs state.repairs
  rebuild_cache snapshot.stocks state
