-- ===== src/Redis/SortedSet.antt =====
-- The sorted set of Redis: distinct members with scores, in the order of score and then member.
use team_10_queue_serivce.Base.{
  ℕ, suc, Bool, ◌&&◌, ◌||◌, List, [], ◌∷◌, Option, none, some, ltb, leb, ◌==◌, if◌then◌else◌,
}

-- Members are compared, and ordered among equal scores.
pub record Key (K : Type 0) : Type 0 where
  pub same : K → K → Bool
  pub before : K → K → Bool

instance abbrev pub id_key : Key ℕ
id_key = record { same = ◌==◌; before = ltb }

-- A timer's member is `<product>:<user>`.
abbrev pub TimerKey : Type 0
TimerKey = ℕ × ℕ

abbrev same_timer : TimerKey → TimerKey → Bool
same_timer (p, u) (q, v) = (p == q) && (u == v)

abbrev timer_before : TimerKey → TimerKey → Bool
timer_before (p, u) (q, v) = ltb p q || (p == q) && ltb u v

instance abbrev pub timer_key : Key TimerKey
timer_key = record { same = same_timer; before = timer_before }

abbrev pub SortedSet : Type 0 → Type 0
SortedSet K = List (ℕ × K)

module _ {K : Type 0} ⦃e : Key K⦄ where
  abbrev pub zscore : K → SortedSet K → Option ℕ
  zscore k [] = none
  zscore k ((s, j) ∷ z) = if e.same j k then some s else zscore k z

  abbrev pub zrem : K → SortedSet K → SortedSet K
  zrem k [] = []
  zrem k ((s, j) ∷ z) = if e.same j k then z else (s, j) ∷ zrem k z

  abbrev pub precedes : ℕ → K → ℕ → K → Bool
  precedes s k t j = ltb s t || (s == t) && e.before k j

  abbrev pub zinsert : ℕ → K → SortedSet K → SortedSet K
  zinsert s k [] = (s, k) ∷ []
  zinsert s k ((t, j) ∷ z) =
      if precedes s k t j then (s, k) ∷ (t, j) ∷ z else (t, j) ∷ zinsert s k z

  -- ZADD: a member that is there already moves to its new score.
  abbrev pub zadd : ℕ → K → SortedSet K → SortedSet K
  zadd s k z = zinsert s k (zrem k z)

  -- ZRANGE key -inf max BYSCORE
  abbrev pub zrange_by_score : ℕ → SortedSet K → SortedSet K
  zrange_by_score max [] = []
  zrange_by_score max ((s, k) ∷ z) = if leb s max then (s, k) ∷ zrange_by_score max z else []

-- ZRANK
abbrev pub zrank : ℕ → SortedSet ℕ → Option ℕ
zrank k [] = none
zrank k ((s, j) ∷ z) =
    if j == k then some 0 else elim (zrank k z) [ none ↦ none | some r ↦ some (suc r) ]
