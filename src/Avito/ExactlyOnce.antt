-- ===== src/Avito/ExactlyOnce.antt =====
-- At-least-once delivery of decrements to stock.take in cmd/avitomock/main.go has the effect of each
-- one happening once.
use team_10_queue_serivce.Base.{
  ==_sound, ℕ, ◌+◌, ◌-◌, ◌≡◌, refl, sym, ap, ◌∙◌, Bool, false, ◌||◌, List, [], ◌∷◌, none, some,
  ◌==◌, if◌then◌else◌, is_some, Bool-cases, Option-cases, inl, inr, arith,
}
use team_10_queue_serivce.Avito.{
  StockDecrementOperation, AvitoStock, count_in, take_new, take_stock,
}

-- A delivery: its key, its product and its quantity.
pub record Decrement : Type 0 where
  pub key : ℕ
  pub product_id : ℕ
  pub quantity : ℕ

-- The deliveries, one after the other.
abbrev pub take_each : List Decrement → AvitoStock → AvitoStock
take_each [] s = s
take_each (e ∷ es) s = take_each es (take_stock e.product_id e.quantity e.key s).1

-- What the first deliveries of each key take from product `p`; `seen` are the keys before them.
abbrev pub units_once : ℕ → (ℕ → Bool) → List Decrement → ℕ
units_once p seen [] = 0
units_once p seen (e ∷ es) =
    if seen e.key
    then units_once p seen es
    else (if e.product_id == p then e.quantity else 0)
      + units_once p (λ k. (e.key == k) || seen k) es

pub count_in-take_new :
    (p q n key : ℕ) (s : AvitoStock)
    → count_in (take_new q n key s).1 p ≡ count_in s p - (if q == p then n else 0)
count_in-take_new p q n key s = elim (Bool-cases (q == p)) [
  | inl e ↦ rw e (ap (λ j. count_in s j - n) (==_sound q p e))
  | inr e ↦ rw e (omega arith)
]

take_new-seen :
    (q n key : ℕ) (s : AvitoStock) (seen : ℕ → Bool)
    → ((k : ℕ) → is_some (s.processed k) ≡ seen k)
    → (k : ℕ) → is_some ((take_new q n key s).1.processed k) ≡ (key == k) || seen k
take_new-seen q n key s seen h k = elim (Bool-cases (key == k)) [
  | inl e ↦ rw e refl
  | inr e ↦ rw e (h k)
]

sub_sub : (a b c : ℕ) → a - b - c ≡ a - (b + c)
sub_sub a b c = omega arith

take_stock-new :
    (q n key : ℕ) (s : AvitoStock)
    → s.processed key ≡ none
    → (take_stock q n key s).1 ≡ (take_new q n key s).1
unfolding take_stock
take_stock-new q n key s o = rw (take_stock, o) refl

take_stock-again :
    (q n key : ℕ) (s : AvitoStock) (x : StockDecrementOperation)
    → s.processed key ≡ some x
    → (take_stock q n key s).1 ≡ s
unfolding take_stock
take_stock-again q n key s x o = rw (take_stock, o) refl

unseen :
    (p : ℕ) (seen : ℕ → Bool) (e : Decrement) (es : List Decrement)
    → seen e.key ≡ false
    → units_once p seen (e ∷ es)
      ≡ (if e.product_id == p then e.quantity else 0)
        + units_once p (λ k. (e.key == k) || seen k) es
unseen p seen e es h = rw h refl

take_each-units_once :
    (p : ℕ) (es : List Decrement) (s : AvitoStock) (seen : ℕ → Bool)
    → ((k : ℕ) → is_some (s.processed k) ≡ seen k)
    → count_in (take_each es s) p ≡ count_in s p - units_once p seen es
take_each-units_once p [] s seen h = omega arith
take_each-units_once p (e ∷ es) s seen h = elim (Option-cases (s.processed e.key)) [
  | inl o ↦
      let s' = (take_new e.product_id e.quantity e.key s).1 in
      let seen' = λ (k : ℕ). (e.key == k) || seen k in
      rw (unseen p seen e es (sym (h e.key) ∙ ap is_some o)) (
        ap (λ t. count_in (take_each es t) p) (take_stock-new e.product_id e.quantity e.key s o)
        ∙ take_each-units_once p es s' seen' (take_new-seen e.product_id e.quantity e.key s seen h)
        ∙ ap (λ c. c - units_once p seen' es) (count_in-take_new p e.product_id e.quantity e.key s)
        ∙ sub_sub (count_in s p) _ (units_once p seen' es))
  | inr (x, o) ↦ rw (sym (h e.key) ∙ ap is_some o) (
      ap (λ t. count_in (take_each es t) p) (take_stock-again e.product_id e.quantity e.key s x o)
      ∙ take_each-units_once p es s seen h)
]

-- However often and in whichever order deliveries are repeated, what is left of a product is its count
-- less the quantities of the first delivery of each key, and 0 if these are more: a repeated key, also
-- with another product or quantity, takes nothing. The keys that were processed before take nothing.
pub take_each-once :
    (p : ℕ) (es : List Decrement) (s : AvitoStock)
    → count_in (take_each es s) p ≡ count_in s p - units_once p (λ k. is_some (s.processed k)) es
take_each-once p es s = take_each-units_once p es s (λ k. is_some (s.processed k)) (λ k. refl)
