-- ===== src/Base/Maps.antt =====
-- A keyspace as a function, with its writes; sets of numbers as lists without repetition; lengths.
use Prim.Native.Nat.{ℕ, zero, suc, ◌≤◌}
use mathlib.Core.Path.{◌≡◌, refl}
use mathlib.Core.Bool.{Bool, true, false, ◌&&◌, ◌||◌}
use mathlib.Core.Option.{Option, none, some}
use mathlib.Core.List.{List, [], ◌∷◌}
use native.Mathlib.Omega.{arith}
use team_10_queue_serivce.Base.Tests.{◌==◌, if◌then◌else◌}

-- A write at one key.
abbrev pub update {ℓ} : {A : Type ℓ} → (ℕ → A) → ℕ → A → ℕ → A
update f k v j = if k == j then v else f j

-- A write at a key of two parts, such as `member:<product>:<user>`.
abbrev pub update₂ {ℓ} : {A : Type ℓ} → (ℕ → ℕ → A) → ℕ → ℕ → A → ℕ → ℕ → A
update₂ f k l v i j = if (k == i) && (l == j) then v else f i j

module _ {ℓ} {A : Type ℓ} where
  abbrev pub length : List A → ℕ
  length [] = 0
  length (x ∷ xs) = suc (length xs)

  abbrev pub take : ℕ → List A → List A
  take zero xs = []
  take (suc n) [] = []
  take (suc n) (x ∷ xs) = x ∷ take n xs

  abbrev pub get_or : A → Option A → A
  get_or d none = d
  get_or d (some a) = a

  abbrev pub is_some : Option A → Bool
  is_some none = false
  is_some (some a) = true

abbrev pub contains : ℕ → List ℕ → Bool
contains a [] = false
contains a (x ∷ xs) = (x == a) || contains a xs

-- `SADD`: no effect on an element that is already there.
abbrev pub set_add : ℕ → List ℕ → List ℕ
set_add a xs = if contains a xs then xs else a ∷ xs

-- `SREM`
abbrev pub set_remove : ℕ → List ℕ → List ℕ
set_remove a [] = []
set_remove a (x ∷ xs) = if x == a then set_remove a xs else x ∷ set_remove a xs

pub length-set_remove-le : (a : ℕ) (xs : List ℕ) → length (set_remove a xs) ≤ length xs
length-set_remove-le a [] = omega arith
length-set_remove-le a (x ∷ xs) = ground (arith, length-set_remove-le a xs)

pub contains-set_remove : (a : ℕ) (xs : List ℕ) → contains a (set_remove a xs) ≡ false
contains-set_remove a [] = refl
contains-set_remove a (x ∷ xs) = ground (arith, contains-set_remove a xs)
