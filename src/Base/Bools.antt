-- ===== src/Base/Bools.antt =====
-- Rules for the Boolean connectives.
use mathlib.Core.Path.{◌≡◌, refl}
use mathlib.Core.Bool.{Bool, true, false, not, ◌&&◌, ◌||◌}

pub not-true : (b : Bool) → not b ≡ true → b ≡ false
not-true true h = cc
not-true false h = refl

pub not-false : (b : Bool) → b ≡ false → not b ≡ true
not-false b h = rw h refl

pub and_true : (a b : Bool) → a && b ≡ true → (a ≡ true) × (b ≡ true)
and_true true b h = (refl, h)
and_true false b h = cc

pub and_intro : (a b : Bool) → a ≡ true → b ≡ true → a && b ≡ true
and_intro a b h k = rw (h, k) refl

pub or_true : (a : Bool) → a || true ≡ true
or_true true = refl
or_true false = refl

pub or_intro : (a b : Bool) → a ≡ true → a || b ≡ true
or_intro a b h = rw h refl

pub or_left : (a b : Bool) → a || b ≡ true → b ≡ false → a ≡ true
or_left true b h k = refl
or_left false b h k = cc

pub or_right : (a b : Bool) → a || b ≡ true → a ≡ false → b ≡ true
or_right true b h k = cc
or_right false b h k = h

pub or_mono : (a b c : Bool) → a || b ≡ true → (b ≡ true → c ≡ true) → a || c ≡ true
or_mono true b c h k = refl
or_mono false b c h k = k h

pub or_swap : (a b c : Bool) → a || (b || c) ≡ b || (a || c)
or_swap true true c = refl
or_swap true false c = refl
or_swap false b c = refl

pub implied : (a b : Bool) → a && not b ≡ false → not a || b ≡ true
implied true true h = refl
implied true false h = cc
implied false b h = refl

pub not-false-true : (b : Bool) → not b ≡ false → b ≡ true
not-false-true true h = refl
not-false-true false h = cc
