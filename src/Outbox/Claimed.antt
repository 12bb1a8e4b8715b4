-- ===== src/Outbox/Claimed.antt =====
-- ClaimStockDecrements takes every due event, if there are no more than its limit.
use team_10_queue_serivce.Base.{
  or_true, or_mono, or_right, or_swap, ==_sound, ℕ, zero, suc, ◌≤◌, ◌≡◌, refl, ap, ◌∙◌, Bool, true,
  false, ◌||◌, ◌&&◌, List, [], ◌∷◌, ◌==◌, if◌then◌else◌, contains, take, length, Bool-cases, inl,
  inr, arith,
}
use team_10_queue_serivce.Base.Sort.{sort_by, insert_by}
use team_10_queue_serivce.Models.{StockDecrement}
use team_10_queue_serivce.Postgres.State.{Durable}
use team_10_queue_serivce.Postgres.Outbox.{
  is_due, due_before, due_rows, due_ids, lease_rows, rows_with, claim_stock_decrements,
}
use team_10_queue_serivce.Outbox.Rows.{ids_of}

contains-insert_by :
    (i : ℕ) (x : StockDecrement) (xs : List StockDecrement)
    → contains i (ids_of (insert_by due_before x xs)) ≡ (x.id == i) || contains i (ids_of xs)
contains-insert_by i x [] = refl
contains-insert_by i x (y ∷ ys) = elim (Bool-cases (due_before x y)) [
  | inl b ↦ rw b refl
  | inr b ↦
      rw b
        (ap (λ t. (y.id == i) || t) (contains-insert_by i x ys) ∙ or_swap (y.id == i) (x.id == i) _)
]

contains-sort_by :
    (i : ℕ) (xs : List StockDecrement)
    → contains i (ids_of (sort_by due_before xs)) ≡ contains i (ids_of xs)
contains-sort_by i [] = refl
contains-sort_by i (x ∷ xs) =
    contains-insert_by i x (sort_by due_before xs)
    ∙ ap (λ t. (x.id == i) || t) (contains-sort_by i xs)

length-insert_by :
    (x : StockDecrement) (xs : List StockDecrement)
    → length (insert_by due_before x xs) ≡ suc (length xs)
length-insert_by x [] = refl
length-insert_by x (y ∷ ys) = elim (Bool-cases (due_before x y)) [
  | inl b ↦ rw b refl
  | inr b ↦ rw b (ap suc (length-insert_by x ys))
]

length-sort_by : (xs : List StockDecrement) → length (sort_by due_before xs) ≡ length xs
length-sort_by [] = refl
length-sort_by (x ∷ xs) = length-insert_by x (sort_by due_before xs) ∙ ap suc (length-sort_by xs)

take_all : (n : ℕ) (xs : List StockDecrement) → length xs ≤ n → take n xs ≡ xs
take_all zero [] h = refl
take_all zero (x ∷ xs) h = ground (arith, h)
take_all (suc n) [] h = refl
take_all (suc n) (x ∷ xs) h = ap (λ ys. x ∷ ys) (take_all n xs (omega (arith, h)))

-- The event is `i`, for `n` units of product `p`.
abbrev pub is_event : ℕ → ℕ → ℕ → StockDecrement → Bool
is_event i p n e = (e.id == i) && (e.product_id == p) && (e.quantity == n)

abbrev pub any : (StockDecrement → Bool) → List StockDecrement → Bool
any f [] = false
any f (e ∷ es) = f e || any f es

module _ (i p n : ℕ) where
  pub contains-any :
      (es : List StockDecrement) → any (is_event i p n) es ≡ true → contains i (ids_of es) ≡ true
  contains-any [] h = h
  contains-any (e ∷ es) h = ground (arith, h, contains-any es)

  due_step :
      (b : Bool) (e : StockDecrement) (xs es : List StockDecrement)
      → any (is_event i p n) (if b then e ∷ xs else xs) ≡ true
      → (any (is_event i p n) xs ≡ true → any (is_event i p n) es ≡ true)
      → is_event i p n e || any (is_event i p n) es ≡ true
  due_step true e xs es h k = or_mono (is_event i p n e) _ _ h k
  due_step false e xs es h k = rw (k h) (or_true (is_event i p n e))

  any-due_rows :
      (now : ℕ) (es : List StockDecrement)
      → any (is_event i p n) (due_rows now es) ≡ true
      → any (is_event i p n) es ≡ true
  any-due_rows now [] h = h
  any-due_rows now (e ∷ es) h =
      due_step (is_due now e) e (due_rows now es) es h (any-due_rows now es)

  unlisted :
      (e : StockDecrement) (ids : List ℕ)
      → contains e.id ids ≡ false
      → contains i ids ≡ true
      → is_event i p n e ≡ false
  unlisted e ids k c = elim (Bool-cases (e.id == i)) [
    | inl same ↦ let both = ap (λ j. contains j ids) (==_sound e.id i same) in cc
    | inr other ↦ rw other refl
  ]

  any-rows_with :
      (now until : ℕ) (ids : List ℕ) (es : List StockDecrement)
      → contains i ids ≡ true
      → any (is_event i p n) es ≡ true
      → any (is_event i p n) (rows_with ids (lease_rows now until ids es)) ≡ true
  any-rows_with now until ids [] c h = h
  any-rows_with now until ids (e ∷ es) c h = elim (Bool-cases (contains e.id ids)) [
    | inl k ↦ rw (k, k) (or_mono (is_event i p n e) _ _ h (any-rows_with now until ids es c))
    | inr k ↦
        rw (k, k)
          (any-rows_with now until ids es c (or_right (is_event i p n e) _ h (unlisted e ids k c)))
  ]

  pub claim_stock_decrements-all :
      (now until limit : ℕ) (d : Durable)
      → length (due_rows now d.outbox) ≤ limit
      → any (is_event i p n) (due_rows now d.outbox) ≡ true
      → any (is_event i p n) (claim_stock_decrements now until limit d).0 ≡ true
  unfolding claim_stock_decrements
  claim_stock_decrements-all now until limit d h c =
      any-rows_with now until (due_ids now limit d.outbox) d.outbox
        (ap (λ xs. contains i (ids_of xs))
            (take_all limit (sort_by due_before (due_rows now d.outbox))
              (rw (length-sort_by (due_rows now d.outbox)) h))
          ∙ contains-sort_by i (due_rows now d.outbox)
          ∙ contains-any (due_rows now d.outbox) c)
        (any-due_rows now d.outbox c)
