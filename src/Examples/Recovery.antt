-- ===== src/Examples/Recovery.antt =====
-- Recovery at concrete snapshots.
use team_10_queue_serivce.Base.{◌*◌, ◌≡◌, refl, [], ◌∷◌}
use team_10_queue_serivce.Models.{ProductStock, RecoverySnapshot, second}
use team_10_queue_serivce.Models.Result.{ok}
use team_10_queue_serivce.World.Triple.{Ends, Always}
use team_10_queue_serivce.Service.Recovery.{RecoveryState, build_recovery_state, recover_cache}
use team_10_queue_serivce.Recovery.Promised.{IsReserved, build_recovery_state-IsReserved}
use team_10_queue_serivce.Recovery.Recovered.{IsRecovered, recover_cache-IsRecovered}
use team_10_queue_serivce.Postgres.Snapshot.{snapshot_of}
use team_10_queue_serivce.Examples.Shop.{right_of_5, member_5, member_6, member_8, shop}

abbrev stock_of_7 : ProductStock
stock_of_7 = record { product_id = 7; product_count = 4; total_stock = 5; updated_at = 0 }

-- The last right is not named by a membership.
abbrev snapshot : RecoverySnapshot
snapshot = record {
  stocks = stock_of_7 ∷ [];
  memberships = member_5 ∷ member_6 ∷ member_8 ∷ [];
  rights = right_of_5 ∷ record right_of_5 { token = 101; user_id = 9 } ∷ [];
}

build_recovery_state-IsReserved_example :
    (b : RecoveryState) × ((build_recovery_state snapshot (50 * second) shop).0 ≡ ok b)
    × IsReserved 7 b
build_recovery_state-IsReserved_example =
    build_recovery_state-IsReserved 7 snapshot (50 * second) shop
      ((refl, tt), (refl, (refl, (refl, tt))), (refl, refl, (refl, refl, tt))) refl

abbrev row_of_7 : ProductStock
row_of_7 = record { product_id = 7; product_count = 3; total_stock = 3; updated_at = 5 * second }

abbrev tables : RecoverySnapshot
tables = snapshot_of shop.store.durable

recover_cache-IsRecovered_example :
    Ends
      (λ u. IsRecovered 7 row_of_7 tables)
      Always
      (recover_cache shop).0
      (recover_cache shop).1.store
recover_cache-IsRecovered_example =
    recover_cache-IsRecovered 7 row_of_7 shop
      ((refl, tt), (refl, (refl, (refl, tt))), (refl, refl, tt)) (refl, tt) refl
