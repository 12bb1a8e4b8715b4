-- ===== src/Redis/Order.antt =====
-- The order of a product's queue under the scripts of cache.go.
use team_10_queue_serivce.Base.{
  ℕ, ◌≡◌, refl, Bool, true, false, ◌&&◌, [], ◌∷◌, ◌++◌, arith, ltb, leb, ◌==◌, if◌then◌else◌,
}
use team_10_queue_serivce.Redis.SortedSet.{SortedSet, id_key, zrem, zinsert, precedes, zadd}

-- The user does not wait.
abbrev pub is_absent : ℕ → SortedSet ℕ → Bool
is_absent u [] = true
is_absent u ((s, j) ∷ z) = if j == u then false else is_absent u z

-- A score and a user that stand before everyone.
abbrev pub leads : ℕ → ℕ → SortedSet ℕ → Bool
leads s u [] = true
leads s u ((t, j) ∷ z) = precedes {K = ℕ} s u t j && leads s u z

-- In order of score and then user, and nobody waits twice.
abbrev pub is_queue : SortedSet ℕ → Bool
is_queue [] = true
is_queue ((s, u) ∷ z) = leads s u z && is_absent u z && is_queue z

-- No score is above `n`.
abbrev pub is_below : ℕ → SortedSet ℕ → Bool
is_below n [] = true
is_below n ((s, u) ∷ z) = leb s n && is_below n z

is_absent-zrem :
    (u k : ℕ) (z : SortedSet ℕ) → is_absent u z ≡ true → is_absent u (zrem {K = ℕ} k z) ≡ true
is_absent-zrem u k [] h = refl
is_absent-zrem u k ((s, j) ∷ z) h = ground (arith, is_absent-zrem u k z)

leads-zrem :
    (s u k : ℕ) (z : SortedSet ℕ) → leads s u z ≡ true → leads s u (zrem {K = ℕ} k z) ≡ true
leads-zrem s u k [] h = refl
leads-zrem s u k ((t, j) ∷ z) h = ground (arith, leads-zrem s u k z)

pub zrem-is_queue :
    (k : ℕ) (z : SortedSet ℕ) → is_queue z ≡ true → is_queue (zrem {K = ℕ} k z) ≡ true
zrem-is_queue k [] h = refl
zrem-is_queue k ((s, u) ∷ z) h =
    ground (arith, zrem-is_queue k z, is_absent-zrem u k z, leads-zrem s u k z)

pub zrem-is_absent :
    (k : ℕ) (z : SortedSet ℕ) → is_queue z ≡ true → is_absent k (zrem {K = ℕ} k z) ≡ true
zrem-is_absent k [] h = refl
zrem-is_absent k ((s, u) ∷ z) h = ground (arith, zrem-is_absent k z)

pub zrem-absent : (k : ℕ) (z : SortedSet ℕ) → is_absent k z ≡ true → zrem {K = ℕ} k z ≡ z
zrem-absent k [] h = refl
zrem-absent k ((s, u) ∷ z) h = ground (arith, zrem-absent k z)

is_absent-zinsert :
    (u s k : ℕ) (z : SortedSet ℕ)
    → (k == u) ≡ false
    → is_absent u z ≡ true
    → is_absent u (zinsert {K = ℕ} s k z) ≡ true
is_absent-zinsert u s k [] n h = ground arith
is_absent-zinsert u s k ((t, j) ∷ z) n h = ground (arith, is_absent-zinsert u s k z)

leads-zinsert :
    (t j s k : ℕ) (z : SortedSet ℕ)
    → precedes {K = ℕ} t j s k ≡ true
    → leads t j z ≡ true
    → leads t j (zinsert {K = ℕ} s k z) ≡ true
leads-zinsert t j s k [] n h = ground arith
leads-zinsert t j s k ((x, i) ∷ z) n h = ground (arith, leads-zinsert t j s k z)

leads_trans :
    (s k t j : ℕ) (z : SortedSet ℕ)
    → precedes {K = ℕ} s k t j ≡ true
    → leads t j z ≡ true
    → leads s k z ≡ true
leads_trans s k t j [] n h = refl
leads_trans s k t j ((x, i) ∷ z) n h = ground (arith, leads_trans s k t j z)

precedes-total :
    (s k t j : ℕ)
    → precedes {K = ℕ} s k t j ≡ false
    → (j == k) ≡ false
    → precedes {K = ℕ} t j s k ≡ true
precedes-total s k t j h n = ground arith

zinsert-is_queue :
    (s k : ℕ) (z : SortedSet ℕ)
    → is_absent k z ≡ true
    → is_queue z ≡ true
    → is_queue (zinsert {K = ℕ} s k z) ≡ true
zinsert-is_queue s k [] n h = refl
zinsert-is_queue s k ((t, j) ∷ z) n h = ground (
  arith,
  zinsert-is_queue s k z,
  leads_trans s k t j z,
  leads-zinsert t j s k z,
  is_absent-zinsert j s k z,
  precedes-total s k t j,
)

pub zadd-is_queue :
    (s k : ℕ) (z : SortedSet ℕ) → is_queue z ≡ true → is_queue (zadd {K = ℕ} s k z) ≡ true
zadd-is_queue s k z h =
    zinsert-is_queue s k (zrem {K = ℕ} k z) (zrem-is_absent k z h) (zrem-is_queue k z h)

-- Behind scores that are lower, a new entry is the last.
pub zinsert-last :
    (n s k : ℕ) (z : SortedSet ℕ)
    → ltb n s ≡ true
    → is_below n z ≡ true
    → zinsert {K = ℕ} s k z ≡ z ++ (s, k) ∷ []
zinsert-last n s k [] h b = refl
zinsert-last n s k ((t, j) ∷ z) h b = ground (arith, zinsert-last n s k z)

-- Before everyone, it is the first.
pub zinsert-first :
    (s k : ℕ) (z : SortedSet ℕ) → leads s k z ≡ true → zinsert {K = ℕ} s k z ≡ (s, k) ∷ z
zinsert-first s k [] h = refl
zinsert-first s k ((t, j) ∷ z) h = ground arith
