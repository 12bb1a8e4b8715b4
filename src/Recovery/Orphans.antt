-- ===== src/Recovery/Orphans.antt =====
-- The loop over activeRights: what no membership claims holds nothing afterwards.
use team_10_queue_serivce.Base.{
  ℕ, ◌≤◌, ◌≡◌, refl, ap, ◌∙◌, Bool, true, false, List, [], ◌∷◌, none, arith, inl, inr, ◌==◌,
  if◌then◌else◌, Bool-cases,
}
use team_10_queue_serivce.Models.{Right}
use team_10_queue_serivce.Models.Status.{is_active}
use team_10_queue_serivce.Postgres.Rows.{find_right, expire_row}
use team_10_queue_serivce.Service.Recovery.Rights.{
  RecoveryRepairs, is_bad_right, expire_too, expire_registered, expire_orphans,
}
use team_10_queue_serivce.Oversell.{right_units, rights_units}
use team_10_queue_serivce.Recovery.Claims.{
  AreRights, AreEntered, is_claimed, is_entered, claimed_units,
}

-- What the loop does to one row.
expire_one : List (ℕ × Bool) → Right → Right
expire_one [] r = r
expire_one ((t, claimed) ∷ claims) r =
    expire_one claims (if claimed then r else if r.token == t then expire_row r else r)

expire_one-le :
    (p : ℕ) (claims : List (ℕ × Bool)) (r : Right)
    → right_units p (expire_one claims r) ≤ right_units p r
unfolding expire_one
expire_one-le p [] r = omega arith
expire_one-le p ((t, c) ∷ claims) r =
    ground (arith, expire_one-le p claims r, expire_one-le p claims (expire_row r))

expire_one-claimed :
    (p : ℕ) (claims : List (ℕ × Bool)) (r : Right)
    → (is_active r.status ≡ true → is_entered r.token claims ≡ true)
    → right_units p (expire_one claims r)
      ≤ (if is_claimed r.token claims then right_units p r else 0)
unfolding expire_one
expire_one-claimed p [] r h = ground (arith, h)
expire_one-claimed p ((t, c) ∷ claims) r h = ground (
  arith,
  h,
  expire_one-le p claims r,
  expire_one-le p claims (expire_row r),
  expire_one-claimed p claims r,
)

expire_registered-absent :
    (t : ℕ) (rs : List Right) → find_right t rs ≡ none → expire_registered t rs ≡ rs
expire_registered-absent t [] h = refl
expire_registered-absent t (r ∷ rs) h = ground (arith, expire_registered-absent t rs)

find_right-expire_registered :
    (j t : ℕ) (rs : List Right)
    → find_right j rs ≡ none
    → find_right j (expire_registered t rs) ≡ none
find_right-expire_registered j t [] h = refl
find_right-expire_registered j t (r ∷ rs) h = ground (arith, find_right-expire_registered j t rs)

-- The rows that the loop leaves.
unfoldable pub left_rows : List (ℕ × Bool) → List Right → RecoveryRepairs → List Right
left_rows claims rows repairs = (expire_orphans claims (rows, repairs)).0

-- What one round does to a row.
after_round : ℕ → Right → Right
after_round t r = if r.token == t then expire_row r else r

expire_registered-cons :
    (t : ℕ) (r : Right) (rs : List Right)
    → is_bad_right r ≡ false
    → find_right r.token rs ≡ none
    → expire_registered t (r ∷ rs) ≡ after_round t r ∷ expire_registered t rs
unfolding after_round
expire_registered-cons t r rs bad fresh = ground (arith, bad, expire_registered-absent t rs)

after_round-good :
    (t : ℕ) (r : Right) → is_bad_right r ≡ false → is_bad_right (after_round t r) ≡ false
unfolding after_round
after_round-good t r bad = elim (Bool-cases (r.token == t)) [
  | inl e ↦ ground (arith, e, bad)
  | inr e ↦ ground (arith, e, bad)
]

after_round-token : (t : ℕ) (r : Right) → (after_round t r).token ≡ r.token
unfolding after_round
after_round-token t r = ground arith

left_rows-cons :
    (claims : List (ℕ × Bool)) (r : Right) (rs : List Right) (a b : RecoveryRepairs)
    → is_bad_right r ≡ false
    → find_right r.token rs ≡ none
    → left_rows claims (r ∷ rs) a ≡ expire_one claims r ∷ left_rows claims rs b
unfolding left_rows expire_orphans expire_one after_round
left_rows-cons [] r rs a b bad fresh = refl
left_rows-cons ((t, true) ∷ claims) r rs a b bad fresh = left_rows-cons claims r rs a b bad fresh
left_rows-cons ((t, false) ∷ claims) r rs a b bad fresh =
    ap (λ rows. left_rows claims rows (expire_too t a)) (expire_registered-cons t r rs bad fresh)
    ∙ left_rows-cons claims (after_round t r) (expire_registered t rs) (expire_too t a)
        (expire_too t b) (after_round-good t r bad)
        (ap (λ j. find_right j (expire_registered t rs)) (after_round-token t r)
          ∙ find_right-expire_registered r.token t rs fresh)

left_rows-nil : (claims : List (ℕ × Bool)) (a : RecoveryRepairs) → left_rows claims [] a ≡ []
unfolding left_rows expire_orphans
left_rows-nil [] a = refl
left_rows-nil ((t, true) ∷ claims) a = left_rows-nil claims a
left_rows-nil ((t, false) ∷ claims) a = left_rows-nil claims (expire_too t a)

-- What the loop leaves holds no more than what is claimed.
pub rights_units-left_rows :
    (p : ℕ) (claims : List (ℕ × Bool)) (rs : List Right) (repairs : RecoveryRepairs)
    → AreRights rs
    → AreEntered claims rs
    → rights_units p (left_rows claims rs repairs) ≤ claimed_units p claims rs
rights_units-left_rows p claims [] repairs w e = rw (left_rows-nil claims repairs) (omega arith)
rights_units-left_rows p claims (r ∷ rs) repairs w e =
    let one = expire_one-claimed p claims r e.0 in
    let rest = rights_units-left_rows p claims rs repairs w.2 e.1 in
    rw (left_rows-cons claims r rs repairs repairs w.0 w.1) (omega arith)
