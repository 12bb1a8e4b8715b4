-- ===== src/Examples/Rights.antt =====
-- The theorems on the end of a right, applied to the shop.
use team_10_queue_serivce.Base.{◌*◌, ◌≡◌, ◌≢◌, refl, arith, false}
use team_10_queue_serivce.Models.Status.{used}
use team_10_queue_serivce.Models.{second, token_used, token_expired}
use team_10_queue_serivce.Models.Result.{Result, ok, err}
use team_10_queue_serivce.Postgres.Rows.{get_right_by_token, upsert_membership}
use team_10_queue_serivce.Postgres.Rights.{
  Transition, use_right, unchanged, expire_right_and_upsert_membership,
}
use team_10_queue_serivce.Postgres.Once.{use_right-settled, expire_right-settled}
use team_10_queue_serivce.Examples.Shop.{right_of_5, shop_tables, member_5}

abbrev value : Result Transition → Transition
value (ok t) = t
value (err e) = record { right = right_of_5; transitioned = false; tables = shop_tables }

-- Order 900 pays for the right of user 5 at 50 s.
abbrev paid_5 : Transition
paid_5 = value (use_right 300 100 900 (50 * second) shop_tables)

paid_5_lem : use_right 300 100 900 (50 * second) shop_tables ≡ ok paid_5
unfolding use_right get_right_by_token
paid_5_lem = refl

use_right-settled_example :
    (use_right 301 100 900 (60 * second) paid_5.tables ≡ unchanged paid_5.right paid_5.tables)
    × (use_right 301 100 901 (60 * second) paid_5.tables ≡ err token_used)
    × (expire_right_and_upsert_membership (60 * second) 100 member_5 paid_5.tables
        ≡ unchanged paid_5.right paid_5.tables)
use_right-settled_example =
    use_right-settled 300 100 900 (50 * second) shop_tables paid_5 paid_5_lem 301 901 (60 * second)
      member_5 (omega arith)

-- The right of user 5 expires at 50 s.
abbrev expired_5 : Transition
expired_5 = value (expire_right_and_upsert_membership (50 * second) 100 member_5 shop_tables)

expired_5_lem :
    expire_right_and_upsert_membership (50 * second) 100 member_5 shop_tables ≡ ok expired_5
unfolding expire_right_and_upsert_membership get_right_by_token upsert_membership
expired_5_lem = refl

unpaid_5 : expired_5.right.status ≢ used
unfolding expire_right_and_upsert_membership get_right_by_token upsert_membership
unpaid_5 e = cc

expire_right-settled_example :
    (expire_right_and_upsert_membership (60 * second) 100 member_5 expired_5.tables
      ≡ unchanged expired_5.right expired_5.tables)
    × (use_right 301 100 900 (60 * second) expired_5.tables ≡ err token_expired)
expire_right-settled_example =
    expire_right-settled (50 * second) 100 member_5 shop_tables expired_5 expired_5_lem 301 900
      (60 * second) member_5 unpaid_5
