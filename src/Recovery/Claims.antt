-- ===== src/Recovery/Claims.antt =====
-- The rights of a snapshot and their claims: recoveryRights, and the loop over activeRights.
use team_10_queue_serivce.Base.{
  ℕ, ◌+◌, ◌≤◌, ◌≡◌, refl, Bool, true, false, ◌||◌, List, [], ◌∷◌, none, some, arith, ◌==◌,
  if◌then◌else◌,
}
use team_10_queue_serivce.Models.{Right}
use team_10_queue_serivce.Models.Status.{is_active}
use team_10_queue_serivce.Postgres.Rows.{find_right}
use team_10_queue_serivce.Service.Recovery.Rights.{is_bad_right, set_claimed}
use team_10_queue_serivce.Oversell.{right_units}

-- The rows are well-formed, and their tokens differ.
abbrev pub AreRights : List Right → Type 0
AreRights [] = Unit
AreRights (r ∷ rs) = (is_bad_right r ≡ false) × (find_right r.token rs ≡ none) × AreRights rs

abbrev pub is_claimed : ℕ → List (ℕ × Bool) → Bool
is_claimed t [] = false
is_claimed t ((s, claimed) ∷ claims) = if s == t then claimed else is_claimed t claims

abbrev pub is_entered : ℕ → List (ℕ × Bool) → Bool
is_entered t [] = false
is_entered t ((s, claimed) ∷ claims) = (s == t) || is_entered t claims

-- Each active right waits for a claim.
abbrev pub AreEntered : List (ℕ × Bool) → List Right → Type 0
AreEntered claims [] = Unit
AreEntered claims (r ∷ rs) =
    (is_active r.status ≡ true → is_entered r.token claims ≡ true) × AreEntered claims rs

-- What the claimed rights hold of product `p`.
abbrev pub claimed_units : ℕ → List (ℕ × Bool) → List Right → ℕ
claimed_units p claims [] = 0
claimed_units p claims (r ∷ rs) =
    (if is_claimed r.token claims then right_units p r else 0) + claimed_units p claims rs

is_claimed-set_claimed :
    (t j : ℕ) (claims : List (ℕ × Bool))
    → is_claimed j (set_claimed t claims) ≡ (if t == j then true else is_claimed j claims)
is_claimed-set_claimed t j [] = ground arith
is_claimed-set_claimed t j ((s, c) ∷ claims) = ground (arith, is_claimed-set_claimed t j claims)

is_entered-set_claimed :
    (t j : ℕ) (claims : List (ℕ × Bool))
    → is_entered j claims ≡ true
    → is_entered j (set_claimed t claims) ≡ true
is_entered-set_claimed t j [] h = cc
is_entered-set_claimed t j ((s, c) ∷ claims) h = ground (arith, is_entered-set_claimed t j claims)

pub AreEntered-set_claimed :
    (t : ℕ) (claims : List (ℕ × Bool)) (rs : List Right)
    → AreEntered claims rs
    → AreEntered (set_claimed t claims) rs
AreEntered-set_claimed t claims [] h = tt
AreEntered-set_claimed t claims (r ∷ rs) h =
    (λ a. is_entered-set_claimed t r.token claims (h.0 a), AreEntered-set_claimed t claims rs h.1)

claimed_units-absent :
    (p t : ℕ) (claims : List (ℕ × Bool)) (rs : List Right)
    → find_right t rs ≡ none
    → claimed_units p (set_claimed t claims) rs ≡ claimed_units p claims rs
claimed_units-absent p t claims [] h = refl
claimed_units-absent p t claims (r ∷ rs) h =
    ground (arith, claimed_units-absent p t claims rs, is_claimed-set_claimed t r.token claims)

-- A claim adds the units of its right at most.
pub claimed_units-set_claimed :
    (p : ℕ) (claims : List (ℕ × Bool)) (rs : List Right) (t : ℕ) (r : Right)
    → AreRights rs
    → find_right t rs ≡ some r
    → claimed_units p (set_claimed t claims) rs ≤ claimed_units p claims rs + right_units p r
claimed_units-set_claimed p claims [] t r w h = cc
claimed_units-set_claimed p claims (x ∷ rs) t r w h = ground (
  arith,
  claimed_units-absent p t claims rs,
  claimed_units-set_claimed p claims rs t r,
  is_claimed-set_claimed t x.token claims,
)
