-- ===== src/Recovery/Index.antt =====
-- recoveryRights: what it indexes, and which rights then wait for a claim.
use team_10_queue_serivce.Base.{
  ℕ, ◌≡◌, refl, ap, ◌∙◌, Bool, true, false, ◌||◌, List, [], ◌∷◌, ◌++◌, none, arith, inl, inr, ◌==◌,
  is_some, Bool-cases,
}
use team_10_queue_serivce.Models.{Right}
use team_10_queue_serivce.Models.Status.{is_active}
use team_10_queue_serivce.Postgres.Rows.{find_right, expire_row}
use team_10_queue_serivce.Service.Recovery.Rights.{
  Products, RecoveryRepairs, RecoveredRights, is_bad_right, add_right, recovery_rights, expire_too,
}
use team_10_queue_serivce.Recovery.Claims.{
  AreRights, AreEntered, is_claimed, is_entered, claimed_units,
}

-- No right of the list has a token of `known`.
abbrev pub AreFresh : List Right → List Right → Type 0
AreFresh known [] = Unit
AreFresh known (r ∷ rs) = (find_right r.token known ≡ none) × AreFresh known rs

find_right-none :
    (t : ℕ) (x : Right) (xs : List Right)
    → find_right t (x ∷ xs) ≡ none
    → (t == x.token ≡ false) × (find_right t xs ≡ none)
find_right-none t x xs h = ground (arith, h)

find_right-snoc :
    (t : ℕ) (xs : List Right) (r : Right)
    → find_right t xs ≡ none
    → (r.token == t) ≡ false
    → find_right t (xs ++ r ∷ []) ≡ none
find_right-snoc t [] r h e = ground (arith, e)
find_right-snoc t (x ∷ xs) r h e = ground (arith, e, find_right-snoc t xs r)

AreRights-snoc :
    (xs : List Right) (r : Right)
    → AreRights xs
    → is_bad_right r ≡ false
    → find_right r.token xs ≡ none
    → AreRights (xs ++ r ∷ [])
AreRights-snoc [] r w bad fresh = (bad, refl, tt)
AreRights-snoc (x ∷ xs) r w bad fresh = (
  w.0,
  find_right-snoc x.token xs r w.1 (find_right-none r.token x xs fresh).0,
  AreRights-snoc xs r w.2 bad (find_right-none r.token x xs fresh).1,
)

AreFresh-snoc :
    (known : List Right) (r : Right) (rs : List Right)
    → AreFresh known rs
    → find_right r.token rs ≡ none
    → AreFresh (known ++ r ∷ []) rs
AreFresh-snoc known r [] h e = tt
AreFresh-snoc known r (x ∷ rs) h e = (
  find_right-snoc x.token known r h.0 (find_right-none r.token x rs e).0,
  AreFresh-snoc known r rs h.1 (find_right-none r.token x rs e).1,
)

AreEntered-snoc :
    (claims : List (ℕ × Bool)) (xs : List Right) (r : Right)
    → AreEntered claims xs
    → (is_active r.status ≡ true → is_entered r.token claims ≡ true)
    → AreEntered claims (xs ++ r ∷ [])
AreEntered-snoc claims [] r h e = (e, tt)
AreEntered-snoc claims (x ∷ xs) r h e = (h.0, AreEntered-snoc claims xs r h.1 e)

is_entered-snoc :
    (j t : ℕ) (claims : List (ℕ × Bool))
    → is_entered j (claims ++ (t, false) ∷ []) ≡ is_entered j claims || (t == j)
is_entered-snoc j t [] = ground arith
is_entered-snoc j t ((s, c) ∷ claims) = ground (arith, is_entered-snoc j t claims)

is_claimed-snoc :
    (j t : ℕ) (claims : List (ℕ × Bool))
    → is_claimed j (claims ++ (t, false) ∷ []) ≡ is_claimed j claims
is_claimed-snoc j t [] = ground arith
is_claimed-snoc j t ((s, c) ∷ claims) = ground (arith, is_claimed-snoc j t claims)

AreEntered-enter :
    (t : ℕ) (claims : List (ℕ × Bool)) (xs : List Right)
    → AreEntered claims xs
    → AreEntered (claims ++ (t, false) ∷ []) xs
AreEntered-enter t claims [] h = tt
AreEntered-enter t claims (x ∷ xs) h =
    (λ a. ground (arith, h.0 a, is_entered-snoc x.token t claims), AreEntered-enter t claims xs h.1)

pub claimed_units_none :
    (p : ℕ) (claims : List (ℕ × Bool)) (rs : List Right)
    → ((j : ℕ) → is_claimed j claims ≡ false)
    → claimed_units p claims rs ≡ 0
claimed_units_none p claims [] h = refl
claimed_units_none p claims (r ∷ rs) h = ground (arith, h r.token, claimed_units_none p claims rs h)

-- What the loop keeps: the index is the list of rows, and nothing is claimed yet.
pub record Indexed (acc : RecoveredRights) : Type 0 where
  pub same : acc.rows ≡ acc.by_token
  pub good : AreRights acc.by_token
  pub entered : AreEntered acc.claims acc.by_token
  pub unclaimed : (j : ℕ) → is_claimed j acc.claims ≡ false

Indexed-add :
    (rows known : List Right) (claims claims' : List (ℕ × Bool)) (a b : RecoveryRepairs) (r : Right)
    → Indexed (record { rows = rows; by_token = known; claims = claims; repairs = a })
    → is_bad_right r ≡ false
    → find_right r.token known ≡ none
    → AreEntered claims' known
    → (is_active r.status ≡ true → is_entered r.token claims' ≡ true)
    → ((j : ℕ) → is_claimed j claims' ≡ false)
    → Indexed (record {
      rows = rows ++ r ∷ [];
      by_token = known ++ r ∷ [];
      claims = claims';
      repairs = b;
    })
Indexed-add rows known claims claims' a b r h bad fresh entered own unclaimed = record {
  same = ap (λ xs. xs ++ r ∷ []) h.same;
  good = AreRights-snoc known r h.good bad fresh;
  entered = AreEntered-snoc claims' known r entered own;
  unclaimed = unclaimed;
}

add_right-Indexed :
    (products : Products) (r : Right) (acc : RecoveredRights)
    → Indexed acc
    → is_bad_right r ≡ false
    → find_right r.token acc.by_token ≡ none
    → Indexed (add_right products r acc)
add_right-Indexed products r acc h bad fresh =
    rw (bad, fresh)
      (elim (Bool-cases (is_active r.status)) [
        | inl a ↦ elim (Bool-cases (is_some (products r.product_id))) [
          | inl k ↦
              rw (a, k)
                (Indexed-add acc.rows acc.by_token acc.claims (acc.claims ++ (r.token, false) ∷ [])
                  acc.repairs acc.repairs r h bad fresh
                  (AreEntered-enter r.token acc.claims acc.by_token h.entered)
                  (λ e. ground (arith, is_entered-snoc r.token r.token acc.claims))
                  (λ j. is_claimed-snoc j r.token acc.claims ∙ h.unclaimed j))
          | inr k ↦
              rw (a, k)
                (Indexed-add acc.rows acc.by_token acc.claims acc.claims acc.repairs
                  (expire_too r.token acc.repairs) (expire_row r) h (ground (arith, bad)) fresh
                  h.entered (λ e. ground (arith)) h.unclaimed)
        ]
        | inr a ↦ rw a (
            Indexed-add acc.rows acc.by_token acc.claims acc.claims acc.repairs acc.repairs r h bad
              fresh h.entered (λ e. ground (arith, a, e)) h.unclaimed)
      ])

add_right-AreFresh :
    (products : Products) (r : Right) (acc : RecoveredRights) (rs : List Right)
    → is_bad_right r ≡ false
    → find_right r.token acc.by_token ≡ none
    → find_right r.token rs ≡ none
    → AreFresh acc.by_token rs
    → AreFresh (add_right products r acc).by_token rs
add_right-AreFresh products r acc rs bad fresh apart h =
    rw (bad, fresh)
      (elim (Bool-cases (is_active r.status)) [
        | inl a ↦ elim (Bool-cases (is_some (products r.product_id))) [
          | inl k ↦ rw (a, k) (AreFresh-snoc acc.by_token r rs h apart)
          | inr k ↦ rw (a, k) (AreFresh-snoc acc.by_token (expire_row r) rs h apart)
        ]
        | inr a ↦ rw a (AreFresh-snoc acc.by_token r rs h apart)
      ])

pub recovery_rights-Indexed :
    (products : Products) (rs : List Right) (acc : RecoveredRights)
    → Indexed acc
    → AreRights rs
    → AreFresh acc.by_token rs
    → Indexed (recovery_rights products rs acc)
unfolding recovery_rights
recovery_rights-Indexed products [] acc h w fresh = h
recovery_rights-Indexed products (r ∷ rs) acc h w fresh =
    recovery_rights-Indexed products rs (add_right products r acc)
      (add_right-Indexed products r acc h w.0 fresh.0) w.2
      (add_right-AreFresh products r acc rs w.0 fresh.0 w.1 fresh.1)

pub AreFresh-nil : (rs : List Right) → AreFresh [] rs
AreFresh-nil [] = tt
AreFresh-nil (r ∷ rs) = (refl, AreFresh-nil rs)
