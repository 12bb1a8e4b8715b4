-- ===== src/Recovery/Promised.antt =====
-- buildRecoveryState: the rights and offers that it keeps are reserved.
use team_10_queue_serivce.Base.{
  ==_sound, ℕ, ◌+◌, ◌≤◌, ◌≡◌, refl, ap, true, false, List, [], ◌∷◌, none, arith, inl, inr, ◌==◌,
  is_some, Bool-cases,
}
use team_10_queue_serivce.Models.{ProductStock, QueueMembership, RecoverySnapshot}
use team_10_queue_serivce.Models.Result.{ok}
use team_10_queue_serivce.Postgres.Rows.{find_stock}
use team_10_queue_serivce.World.{World, pure}
use team_10_queue_serivce.World.Triple.{
  Never, Triple, Triple-returns, Triple-pure, Triple-bind, Triple-given,
}
use team_10_queue_serivce.Service.Recovery.Rights.{
  Products, RecoveryRepairs, RecoveredRights, no_repairs, is_bad_stock, add_product,
  recovery_products, recovery_rights, expire_orphans,
}
use team_10_queue_serivce.Service.Recovery.Members.{RecoveredMembers}
use team_10_queue_serivce.Service.Recovery.{RecoveryState, build_recovery_state}
use team_10_queue_serivce.Oversell.{rights_units, offers_units}
use team_10_queue_serivce.Recovery.Claims.{AreRights}
use team_10_queue_serivce.Recovery.Index.{
  Indexed, recovery_rights-Indexed, AreFresh-nil, claimed_units_none,
}
use team_10_queue_serivce.Recovery.Orphans.{left_rows, rights_units-left_rows}
use team_10_queue_serivce.Recovery.Reserved.{Backed, Triple-apply_memberships}
use team_10_queue_serivce.Recovery.Units.{AreMembers, reserved_of}

abbrev pub AreStocks : List ProductStock → Type 0
AreStocks [] = Unit
AreStocks (x ∷ xs) = (is_bad_stock x ≡ false) × AreStocks xs

add_product-known :
    (p : ℕ) (stock : ProductStock) (products : Products) (repairs : RecoveryRepairs)
    → is_some (products p) ≡ true
    → is_some ((add_product stock (products, repairs)).0 p) ≡ true
add_product-known p stock products repairs h = ground (arith, h)

add_product-own :
    (p : ℕ) (stock : ProductStock) (products : Products) (repairs : RecoveryRepairs)
    → is_bad_stock stock ≡ false
    → (stock.product_id == p) ≡ true
    → is_some ((add_product stock (products, repairs)).0 p) ≡ true
add_product-own p stock products repairs bad own =
    let same = ap (λ j. is_some (products j)) (==_sound stock.product_id p own) in
    ground (arith, bad, own, same)

recovery_products-kept :
    (p : ℕ) (stocks : List ProductStock) (acc : Products × RecoveryRepairs)
    → is_some (acc.0 p) ≡ true
    → is_some ((recovery_products stocks acc).0 p) ≡ true
unfolding recovery_products
recovery_products-kept p [] acc h = h
recovery_products-kept p (x ∷ xs) acc h =
    recovery_products-kept p xs (add_product x acc) (add_product-known p x acc.0 acc.1 h)

-- Each product with a well-formed row is known.
pub recovery_products-known :
    (p : ℕ) (stocks : List ProductStock) (acc : Products × RecoveryRepairs)
    → AreStocks stocks
    → is_some (find_stock p stocks) ≡ true
    → is_some ((recovery_products stocks acc).0 p) ≡ true
unfolding recovery_products
recovery_products-known p [] acc w h = cc
recovery_products-known p (x ∷ xs) acc w h = elim (Bool-cases (x.product_id == p)) [
  | inl e ↦ recovery_products-kept p xs (add_product x acc) (add_product-own p x acc.0 acc.1 w.0 e)
  | inr e ↦ recovery_products-known p xs (add_product x acc) w.1 (ground (arith, h, e))
]

-- The rows of a snapshot that the checks and the primary keys of PostgreSQL allow.
abbrev pub IsSound : RecoverySnapshot → Type 0
IsSound snapshot =
    AreStocks snapshot.stocks × AreMembers snapshot.memberships × AreRights snapshot.rights

-- The state knows product `p`, and what is left as promised of it is reserved.
abbrev pub IsReserved : ℕ → RecoveryState → Type 0
IsReserved p b =
    (is_some (b.products p) ≡ true)
    × (rights_units p b.rights + offers_units p b.memberships ≤ reserved_of (b.products p))

covered :
    (p : ℕ) (x : RecoveredRights) (out : List QueueMembership × RecoveredMembers)
    → Indexed x
    → Backed p x.by_token out.1 (0 + offers_units p out.0)
    → rights_units p (expire_orphans out.1.claims (x.rows, out.1.repairs)).0 + offers_units p out.0
      ≤ reserved_of (out.1.products p)
unfolding left_rows
covered p x out w b =
    let kept = rights_units-left_rows p out.1.claims x.by_token out.1.repairs w.good b.entered in
    let enough = b.enough in rw w.same (omega (arith, kept, enough))

module _ (p : ℕ) (snapshot : RecoverySnapshot) (sound : IsSound snapshot)
    (row : is_some (find_stock p snapshot.stocks) ≡ true) where
  pub Triple-build_recovery_state :
      (now : ℕ)
      → Triple
          (λ st. Unit)
          (build_recovery_state snapshot now)
          (λ b st. Unit {0} × IsReserved p b)
          Never
  unfolding build_recovery_state
  Triple-build_recovery_state now =
      Triple-bind _
        (λ out. pure (record {
          products = out.1.products;
          timers = out.1.timers;
          repairs = (expire_orphans out.1.claims (indexed.rows, out.1.repairs)).1;
          memberships = out.0;
          rights = (expire_orphans out.1.claims (indexed.rows, out.1.repairs)).0;
        }))
        (Triple-apply_memberships p indexed.by_token now snapshot.memberships start 0 backed w.good
          sound.1)
        λ out. Triple-given _ λ b. Triple-pure _ λ st u. (tt, (b.known, covered p indexed out w b))
    where
      found : Products × RecoveryRepairs
      found = recovery_products snapshot.stocks ((λ q. none), no_repairs)

      indexed : RecoveredRights
      indexed =
          recovery_rights found.0 snapshot.rights
            (record { rows = []; by_token = []; claims = []; repairs = found.1 })

      start : RecoveredMembers
      start = record {
        products = found.0;
        claims = indexed.claims;
        timers = [];
        repairs = indexed.repairs;
      }

      w : Indexed indexed
      w =
          recovery_rights-Indexed found.0 snapshot.rights _
            (record { same = refl; good = tt; entered = tt; unclaimed = λ j. refl }) sound.2
            (AreFresh-nil snapshot.rights)

      backed : Backed p indexed.by_token start 0
      backed = record {
        known = recovery_products-known p snapshot.stocks ((λ q. none), no_repairs) sound.0 row;
        entered = w.entered;
        enough =
            rw (claimed_units_none p indexed.claims indexed.by_token w.unclaimed) (omega arith);
      }

-- buildRecoveryState returns, and whatever it settles, expires or skips, its state knows a product
-- that has a stock row, and the rights and the pending offers of the product that are left in the rows
-- hold no more units than the state reserves for it, if the snapshot's rows are well-formed and the
-- tokens differ.
pub build_recovery_state-IsReserved :
    (p : ℕ) (snapshot : RecoverySnapshot) (now : ℕ) (w : World)
    → IsSound snapshot
    → is_some (find_stock p snapshot.stocks) ≡ true
    → (b : RecoveryState) × ((build_recovery_state snapshot now w).0 ≡ ok b) × IsReserved p b
build_recovery_state-IsReserved p snapshot now w sound row =
    let out = Triple-returns _ (Triple-build_recovery_state p snapshot sound row now) w tt in
    (out.0, out.1, out.2.1)
