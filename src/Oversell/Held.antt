-- ===== src/Oversell/Held.antt =====
-- How the statements on tables change what is held.
use team_10_queue_serivce.Base.{
  ℕ, ◌+◌, ◌≤◌, ◌≡◌, List, [], ◌∷◌, ◌++◌, none, some, arith, inl, inr, ◌==◌, if◌then◌else◌,
  Option-cases,
}
use team_10_queue_serivce.Models.{QueueMembership, Right, ProductStock}
use team_10_queue_serivce.Postgres.Rows.{
  find_right, set_active, expire_row, use_row, find_membership, upsert_rows, purchase_rows,
  find_stock, decrement_stock,
}
use team_10_queue_serivce.Oversell.{
  Unsaved, right_units, rights_units, offer_units, offers_units, count_of, units_at,
}

pub rights_units-append :
    (p : ℕ) (rs : List Right) (r : Right)
    → rights_units p (rs ++ r ∷ []) ≡ rights_units p rs + right_units p r
rights_units-append p [] r = ground arith
rights_units-append p (x ∷ rs) r = omega (arith, rights_units-append p rs r)

pub rights_units-expire-le :
    (p t : ℕ) (rs : List Right) → rights_units p (set_active expire_row t rs) ≤ rights_units p rs
rights_units-expire-le p t [] = omega arith
rights_units-expire-le p t (x ∷ rs) = ground (arith, rights_units-expire-le p t rs)

-- The right that is found stops holding its units.
pub rights_units-expire :
    (p t : ℕ) (rs : List Right) (r : Right)
    → find_right t rs ≡ some r
    → rights_units p (set_active expire_row t rs) + right_units p r ≤ rights_units p rs
rights_units-expire p t [] r h = ground arith
rights_units-expire p t (x ∷ rs) r h =
    ground (arith, rights_units-expire p t rs r, rights_units-expire-le p t rs)

pub rights_units-use-le :
    (p t order now : ℕ) (rs : List Right)
    → rights_units p (set_active (use_row order now) t rs) ≤ rights_units p rs
rights_units-use-le p t order now [] = omega arith
rights_units-use-le p t order now (x ∷ rs) = ground (arith, rights_units-use-le p t order now rs)

pub rights_units-use :
    (p t order now : ℕ) (rs : List Right) (r : Right)
    → find_right t rs ≡ some r
    → rights_units p (set_active (use_row order now) t rs) + right_units p r ≤ rights_units p rs
rights_units-use p t order now [] r h = ground arith
rights_units-use p t order now (x ∷ rs) r h =
    ground (arith, rights_units-use p t order now rs r, rights_units-use-le p t order now rs)

pub offers_units-upsert-le :
    (p now id : ℕ) (m : QueueMembership) (ms : List QueueMembership)
    → offers_units p (upsert_rows now id m ms) ≤ offers_units p ms + offer_units p m
offers_units-upsert-le p now id m [] = ground arith
offers_units-upsert-le p now id m (x ∷ ms) = ground (arith, offers_units-upsert-le p now id m ms)

-- The row that is replaced stops holding its units.
pub offers_units-upsert :
    (p now id : ℕ) (m old : QueueMembership) (ms : List QueueMembership)
    → find_membership m.product_id m.user_id ms ≡ some old
    → offers_units p (upsert_rows now id m ms) + offer_units p old
      ≤ offers_units p ms + offer_units p m
offers_units-upsert p now id m old [] h = ground arith
offers_units-upsert p now id m old (x ∷ ms) h =
    ground (arith, offers_units-upsert p now id m old ms)

pub offers_units-purchase-le :
    (p now q u t : ℕ) (ms : List QueueMembership)
    → offers_units p (purchase_rows now q u t ms) ≤ offers_units p ms
offers_units-purchase-le p now q u t [] = omega arith
offers_units-purchase-le p now q u t (x ∷ ms) =
    ground (arith, offers_units-purchase-le p now q u t ms)

-- A sale takes its units off the count of its product, and no other.
pub count_of-decrement :
    (total : Unsaved) (p now q n : ℕ) (ss ss' : List ProductStock)
    → decrement_stock now q n ss ≡ some ss'
    → count_of total (find_stock p ss') + units_at q n p ≡ count_of total (find_stock p ss)
count_of-decrement total p now q n [] ss' h = cc
count_of-decrement total p now q n (x ∷ ss) ss' h =
    elim (Option-cases (decrement_stock now q n ss)) [
      | inl e ↦ ground arith
      | inr (rest, e) ↦ ground (arith, count_of-decrement total p now q n ss rest e)
    ]

pub find_stock-append :
    (p : ℕ) (ss : List ProductStock) (s : ProductStock)
    → find_stock s.product_id ss ≡ none
    → find_stock p (ss ++ s ∷ []) ≡ (if s.product_id == p then some s else find_stock p ss)
find_stock-append p [] s h = ground arith
find_stock-append p (x ∷ ss) s h = ground (arith, find_stock-append p ss s)
