-- ===== src/Outbox/Rows.antt =====
-- Who gets an event of the outbox: the statements of backend/internal/repository/postgres/durable.go.
use team_10_queue_serivce.Base.{
  and_true, and_intro, ==_sound, ℕ, suc, zero, ◌≡◌, refl, sym, ap, ◌∙◌, Bool, true, false, not,
  ◌&&◌, List, [], ◌∷◌, ltb, ◌==◌, contains, take, map, Bool-cases, inl, inr, arith,
}
use team_10_queue_serivce.Base.Sort.{sort_by, insert_by}
use team_10_queue_serivce.Models.{StockDecrement}
use team_10_queue_serivce.Postgres.Outbox.{
  is_due, due_before, due_rows, due_ids, lease_row, lease_rows, rows_with,
}

abbrev pub all : {A : Type 0} → (A → Bool) → List A → Bool
all f [] = true
all f (x ∷ xs) = f x && all f xs

abbrev pub ids_of : List StockDecrement → List ℕ
ids_of es = map (λ e. e.id) es

module _ {A : Type 0} (f : A → Bool) where
  all-insert_by :
      (b : A → A → Bool) (x : A) (xs : List A) → all f (insert_by b x xs) ≡ f x && all f xs
  all-insert_by b x [] = refl
  all-insert_by b x (y ∷ ys) = ground (arith, all-insert_by b x ys)

  all-sort_by : (b : A → A → Bool) (xs : List A) → all f (sort_by b xs) ≡ all f xs
  all-sort_by b [] = refl
  all-sort_by b (x ∷ xs) = all-insert_by b x (sort_by b xs) ∙ ap (λ t. f x && t) (all-sort_by b xs)

  all-take : (n : ℕ) (xs : List A) → all f xs ≡ true → all f (take n xs) ≡ true
  all-take zero xs h = refl
  all-take (suc n) [] h = refl
  all-take (suc n) (x ∷ xs) h = ground (arith, h, all-take n xs)

all-map : (f : ℕ → Bool) (es : List StockDecrement) → all f (ids_of es) ≡ all (λ e. f e.id) es
all-map f [] = refl
all-map f (e ∷ es) = ap (λ t. f e.id && t) (all-map f es)

pub all-contains :
    (f : ℕ → Bool) (i : ℕ) (is : List ℕ) → all f is ≡ true → contains i is ≡ true → f i ≡ true
all-contains f i [] h c = cc
all-contains f i (j ∷ js) h c = elim (Bool-cases (j == i)) [
  | inl e ↦ ap f (sym (==_sound j i e)) ∙ (and_true (f j) (all f js) h).0
  | inr e ↦ all-contains f i js (and_true (f j) (all f js) h).1 (ground (arith, c, e))
]

-- What holds of every due row holds of the rows that a claim takes.
pub all-due_ids :
    (f : ℕ → Bool) (now limit : ℕ) (es : List StockDecrement)
    → all (λ e. f e.id) (due_rows now es) ≡ true
    → all f (due_ids now limit es) ≡ true
all-due_ids f now limit es h =
    all-map f (take limit (sort_by due_before (due_rows now es)))
    ∙ all-take (λ e. f e.id) limit _ (all-sort_by (λ e. f e.id) due_before (due_rows now es) ∙ h)

lease_row-late :
    (now until now' : ℕ) (e : StockDecrement)
    → ltb now' until ≡ true
    → is_due now' (lease_row now until e) ≡ false
lease_row-late now until now' e h = ground (arith, h)

-- A leased row is not due before its lease ends.
pub leased_rows-not_due :
    (now until now' : ℕ) (ids : List ℕ) (es : List StockDecrement)
    → ltb now' until ≡ true
    → all (λ e. not (contains e.id ids)) (due_rows now' (lease_rows now until ids es)) ≡ true
leased_rows-not_due now until now' ids [] h = refl
leased_rows-not_due now until now' ids (e ∷ es) h = elim (Bool-cases (contains e.id ids)) [
  | inl c ↦ rw (c, lease_row-late now until now' e h) (leased_rows-not_due now until now' ids es h)
  | inr c ↦ rw c (elim (Bool-cases (is_due now' e)) [
    | inl d ↦ rw d (
        and_intro (not (contains e.id ids)) _ (rw c refl)
          (leased_rows-not_due now until now' ids es h))
    | inr d ↦ rw d (leased_rows-not_due now until now' ids es h)
  ])
]

-- Every row that a claim returns is one that it took.
pub all-rows_with :
    (f : ℕ → Bool) (ids : List ℕ) (es : List StockDecrement)
    → all f ids ≡ true
    → all (λ e. f e.id) (rows_with ids es) ≡ true
all-rows_with f ids [] h = refl
all-rows_with f ids (e ∷ es) h = elim (Bool-cases (contains e.id ids)) [
  | inl c ↦ rw c (and_intro (f e.id) _ (all-contains f e.id ids h c) (all-rows_with f ids es h))
  | inr c ↦ rw c (all-rows_with f ids es h)
]

apart_of :
    (a i : ℕ) (ids : List ℕ) → contains a ids ≡ true → contains i ids ≡ false → (a == i) ≡ false
apart_of a i ids c h = elim (Bool-cases (a == i)) [
  | inl e ↦ let both = ap (λ j. contains j ids) (==_sound a i e) in cc
  | inr e ↦ e
]

pub rows_with-contains :
    (i : ℕ) (ids : List ℕ) (es : List StockDecrement)
    → contains i ids ≡ false
    → contains i (ids_of (rows_with ids es)) ≡ false
rows_with-contains i ids [] h = refl
rows_with-contains i ids (e ∷ es) h = elim (Bool-cases (contains e.id ids)) [
  | inl c ↦ rw c rw (apart_of e.id i ids c h) (rows_with-contains i ids es h)
  | inr c ↦ rw c (rows_with-contains i ids es h)
]

pub weaken_all :
    (f g : ℕ → Bool)
    → ((i : ℕ) → f i ≡ true → g i ≡ true)
    → (is : List ℕ) → all f is ≡ true
    → all g is ≡ true
weaken_all f g h [] k = refl
weaken_all f g h (i ∷ is) k =
    let parts = and_true (f i) (all f is) k in
    and_intro (g i) (all g is) (h i parts.0) (weaken_all f g h is parts.1)
