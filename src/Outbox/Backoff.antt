-- ===== src/Outbox/Backoff.antt =====
-- stockOutboxBackoff in backend/internal/service/stock_decrement_outbox.go.
use team_10_queue_serivce.Base.{
  ℕ, zero, suc, ◌+◌, ◌-◌, ◌*◌, ◌%◌, ◌^◌, ◌≤◌, ◌<◌, ◌≡◌, sym, ap, ◌∙◌, true, false, inl, inr, ltb,
  leb, if◌then◌else◌, Bool-cases, arith,
}
use native.Mathlib.Nat.{pow-succ', mul_assoc}
use team_10_queue_serivce.Models.{second}
use team_10_queue_serivce.Service.Outbox.{
  word_limit, sign_bit, lt_signed, double_delay, stock_outbox_backoff,
}

abbrev pub least : ℕ → ℕ → ℕ
least a b = if ltb b a then b else a

-- Below the sign bit the signed order is the order of the numbers.
lt_signed_lem : (a b : ℕ) → a < sign_bit → b < sign_bit → lt_signed a b ≡ ltb a b
lt_signed_lem a b ha hb = let x = shift a ha in let y = shift b hb in rw (x, y) (ground arith)
  where
    shift : (n : ℕ) → n < sign_bit → (n + sign_bit) % word_limit ≡ n + sign_bit
    shift n h = omega arith

-- `r` doublings of `d`.
pow_suc : (d r : ℕ) → d * 2 ^ suc r ≡ d * 2 * 2 ^ r
pow_suc d r = ap (λ x. d * x) (pow-succ' 2 r) ∙ sym (mul_assoc d 2 (2 ^ r))

pow_le : (d r : ℕ) → d ≤ d * 2 ^ r
pow_le d zero = omega arith
pow_le d (suc r) = let more = pow_le (d * 2) r in rw (pow_suc d r) (omega (arith, more))

below_of : (a b : ℕ) → ltb a b ≡ true → a < b
below_of a b h = ground (arith, h)

above_of : (a b : ℕ) → ltb a b ≡ false → b ≤ a
above_of a b h = ground (arith, h)

later : (n : ℕ) → 2 ≤ n → leb n 1 ≡ false
later n h = ground (arith, h)

wrap : (n : ℕ) → n < word_limit → n % word_limit ≡ n
wrap n h = omega arith

least_of : (a b m : ℕ) → m ≤ a → m ≤ b → least a m ≡ least b m
least_of a b m h k = ground (arith, h, k)

-- The loop stops at the limit or after its rounds, and no step overflows.
double_delay_lem :
    (r m d : ℕ)
    → d < sign_bit
    → m ≤ 4_611_686_018_427_387_904
    → (double_delay r m d < sign_bit) × (least (double_delay r m d) m ≡ least (d * 2 ^ r) m)
unfolding double_delay
double_delay_lem zero m d h k = (h, ap (λ x. least x m) (omega arith))
double_delay_lem (suc r) m d h k = elim (Bool-cases (ltb d m)) [
  | inl c ↦
      let below = below_of d m c in
      let rest = double_delay_lem r m (d * 2) (omega (arith, below, k)) k in
      rw (lt_signed_lem d m h (omega (arith, k)) ∙ c, wrap (d * 2) (omega (arith, below, k)))
        (rest.0, rest.1 ∙ ap (λ x. least x m) (sym (pow_suc d r)))
  | inr c ↦
      let above = above_of d m c in
      let grown = pow_le d (suc r) in
      rw (lt_signed_lem d m h (omega (arith, k)) ∙ c)
        (h, least_of d (d * 2 ^ suc r) m above (omega (arith, above, grown)))
]

-- From the second attempt on, the delay before the next one is a second doubled once for each attempt
-- behind the first, and the greatest delay at most, if that is at most half of what an int64 holds.
pub stock_outbox_backoff_lem :
    (attempts max_backoff : ℕ)
    → 2 ≤ attempts
    → max_backoff ≤ 4_611_686_018_427_387_904
    → stock_outbox_backoff attempts max_backoff ≡ least (second * 2 ^ (attempts - 1)) max_backoff
unfolding stock_outbox_backoff
stock_outbox_backoff_lem n m h k =
    let loop = double_delay_lem (n - 1) m second (omega arith) k in
    rw (later n h, lt_signed_lem m (double_delay (n - 1) m second) (omega (arith, k)) loop.0) loop.1
