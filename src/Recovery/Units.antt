-- ===== src/Recovery/Units.antt =====
-- What one membership of a snapshot holds of a product, and what is reserved after a change.
use team_10_queue_serivce.Base.{
  ==_sound, ℕ, ◌+◌, ◌≤◌, ◌≡◌, refl, sym, ap, ◌∙◌, true, false, List, [], ◌∷◌, Option, none, some,
  arith, inl, inr, ◌==◌, is_some, Bool-cases, update, get_or,
}
use team_10_queue_serivce.Models.{Right, QueueMembership}
use team_10_queue_serivce.Models.Status.{MembershipStatus, is_offer_pending}
use team_10_queue_serivce.Postgres.Rows.{find_right}
use team_10_queue_serivce.Service.Recovery.Rights.{Products, RecoveryProductState}
use team_10_queue_serivce.Service.Recovery.Members.{backs, is_bad_membership, named_right}
use team_10_queue_serivce.Oversell.{right_units, offer_units, units_at}

abbrev pub reserved_of : Option RecoveryProductState → ℕ
reserved_of none = 0
reserved_of (some x) = x.reserved

abbrev pub AreMembers : List QueueMembership → Type 0
AreMembers [] = Unit
AreMembers (m ∷ ms) = (is_bad_membership m ≡ false) × AreMembers ms

find_right-token : (t : ℕ) (rs : List Right) (r : Right) → find_right t rs ≡ some r → r.token ≡ t
find_right-token t [] r h = cc
find_right-token t (x ∷ rs) r h = ground (arith, find_right-token t rs r)

-- What is reserved of product `p` after a change of product `q`.
pub reserved_of-update :
    (products : Products) (p q k : ℕ) (x y : RecoveryProductState)
    → products q ≡ some x
    → y.reserved ≡ x.reserved + k
    → reserved_of (update products q (some y) p) ≡ reserved_of (products p) + units_at q k p
reserved_of-update products p q k x y e r = elim (Bool-cases (q == p)) [
  | inl h ↦ rw h (r ∙ ap (λ o. reserved_of o + k) (sym e ∙ ap products (==_sound q p h)))
  | inr h ↦ rw h (omega arith)
]

pub is_some-update :
    (products : Products) (p q : ℕ) (y : RecoveryProductState)
    → is_some (products p) ≡ true
    → is_some (update products q (some y) p) ≡ true
is_some-update products p q y h = ground (arith, h)

pub offer_units_none :
    (p : ℕ) (m : QueueMembership) → is_offer_pending m.status ≡ false → offer_units p m ≡ 0
offer_units_none p m e = ground (arith, e)

pub right_units-backs :
    (p : ℕ) (m : QueueMembership) (r : Right)
    → backs m r ≡ true
    → right_units p r ≤ units_at m.product_id m.quantity p
right_units-backs p m r b = ground (arith, b)

pub add_assoc : (a b c : ℕ) → a + (b + c) ≡ a + b + c
add_assoc a b c = omega arith

pub offer_units-some :
    (p : ℕ) (m : QueueMembership) (k : ℕ)
    → some k ≡ m.available_quantity
    → offer_units p m ≤ units_at m.product_id k p
offer_units-some p m k same = let value = ap (get_or 0) same in ground (arith, value)

pub offer_le : (a n o v : ℕ) → o ≤ v → a + (n + o) ≤ a + n + v
offer_le a n o v h = omega (arith, h)

pub le_of : (a b n u v o : ℕ) → a ≤ b + u → u ≤ v → o ≡ 0 → a + (n + o) ≤ b + n + v
le_of a b n u v o h k z = omega (arith, h, k, z)

apart :
    (products : Products) (p q : ℕ)
    → is_some (products p) ≡ true
    → products q ≡ none
    → (q == p) ≡ false
apart products p q known e = elim (Bool-cases (q == p)) [
  | inl h ↦ let same = ap products (==_sound q p h) in cc
  | inr h ↦ h
]

pub offer_units-elsewhere :
    (products : Products) (p : ℕ) (m : QueueMembership)
    → is_some (products p) ≡ true
    → products m.product_id ≡ none
    → offer_units p m ≡ 0
offer_units-elsewhere products p m known e = rw (apart products p m.product_id known e) refl

pub unoffered :
    {s t : MembershipStatus} → s ≡ t → is_offer_pending s ≡ false → is_offer_pending t ≡ false
unoffered e h = ap is_offer_pending (sym e) ∙ h

pub named_right-found :
    (by_token : List Right) (t : Option ℕ) (r : Right)
    → named_right t by_token ≡ some r
    → find_right r.token by_token ≡ some r
named_right-found by_token none r h = cc
named_right-found by_token (some t) r h =
    ap (λ j. find_right j by_token) (find_right-token t by_token r h) ∙ h
