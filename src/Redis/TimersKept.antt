-- ===== src/Redis/TimersKept.antt =====
-- No expiration timer is lost: claimExpired, nackExpired and reclaimStaleExpired in cache.go.
use team_10_queue_serivce.Base.{
  ℕ, ◌≡◌, inl, inr, refl, ◌∙◌, Bool, true, false, ◌&&◌, ◌||◌, List, [], ◌∷◌, Option, arith, ◌==◌,
  if◌then◌else◌, take, is_some, Bool-cases,
}
use team_10_queue_serivce.Models.{ExpiryClaim, unix_milli}
use team_10_queue_serivce.Redis.SortedSet.{
  SortedSet, TimerKey, timer_key, zscore, zrem, zinsert, zadd, zrange_by_score,
}
use team_10_queue_serivce.Redis.State.{Cache}
use team_10_queue_serivce.Redis.Timers.{
  lease_timer, lease_timers, reschedule, nack_timer, rescue_timer, rescue_timers,
  claim_expired_script, nack_expired_script, reclaim_stale_expired_script, holds_lease, holds_lease,
}

-- The score of the timer of user `u` for product `p`.
abbrev pub due_at : ℕ → ℕ → SortedSet TimerKey → Option ℕ
due_at p u z = zscore {K = TimerKey} (p, u) z

-- The timer is waiting for its turn, or a worker has it.
abbrev pub is_timed : ℕ → ℕ → Cache → Bool
is_timed p u c = is_some (due_at p u c.scheduled) || is_some (due_at p u c.processing)

or_true : (b : Bool) → (b || true) ≡ true
or_true true = refl
or_true false = refl

module _ (p u : ℕ) where
  due_at-zinsert :
      (s : ℕ) (z : SortedSet TimerKey)
      → is_some (due_at p u (zinsert {K = TimerKey} s (p, u) z)) ≡ true
  due_at-zinsert s [] = ground arith
  due_at-zinsert s ((t, j) ∷ z) = ground (arith, due_at-zinsert s z)

  module _ (q v : ℕ) (n : (q == p) && (v == u) ≡ false) where
    due_at-zinsert-other :
        (s : ℕ) (z : SortedSet TimerKey)
        → due_at p u (zinsert {K = TimerKey} s (q, v) z) ≡ due_at p u z
    due_at-zinsert-other s [] = ground arith
    due_at-zinsert-other s ((t, j) ∷ z) = ground (arith, due_at-zinsert-other s z)

    due_at-zrem-other :
        (z : SortedSet TimerKey) → due_at p u (zrem {K = TimerKey} (q, v) z) ≡ due_at p u z
    due_at-zrem-other [] = refl
    due_at-zrem-other ((t, j) ∷ z) = ground (arith, due_at-zrem-other z)

  same_pair : (q v : ℕ) → (q == p) && (v == u) ≡ true → (q ≡ p) × (v ≡ u)
  same_pair q v h = ground arith

  is_timed-lease_timer :
      (until d q v : ℕ) (c : Cache)
      → is_timed p u c ≡ true
      → is_timed p u (lease_timer until (d, (q, v)) c) ≡ true
  unfolding lease_timer
  is_timed-lease_timer until d q v c h = elim (Bool-cases ((q == p) && (v == u))) [
    | inl e ↦
        rw
          (
            lease_timer,
            (same_pair q v e).0,
            (same_pair q v e).1,
            due_at-zinsert until (zrem {K = TimerKey} (p, u) c.processing),
          )
          (or_true (is_some (due_at p u (zrem {K = TimerKey} (p, u) c.scheduled))))
    | inr e ↦
        rw
          (
            lease_timer,
            due_at-zrem-other q v e c.scheduled,
            due_at-zinsert-other q v e until (zrem {K = TimerKey} (q, v) c.processing),
            due_at-zrem-other q v e c.processing,
          )
          h
  ]

  is_timed-reschedule :
      (score q v : ℕ) (c : Cache)
      → is_timed p u c ≡ true
      → is_timed p u (reschedule score (q, v) c) ≡ true
  unfolding reschedule
  is_timed-reschedule score q v c h = elim (Bool-cases ((q == p) && (v == u))) [
    | inl e ↦
        rw (reschedule, (same_pair q v e).0, (same_pair q v e).1)
          (back score c.scheduled (is_some (due_at p u (zrem {K = TimerKey} (p, u) c.processing))))
    | inr e ↦
        rw (reschedule, due_at-zrem-other q v e c.processing, others score q v e c.scheduled) h
  ]
    where
      back :
          (s : ℕ) (z : SortedSet TimerKey) (b : Bool)
          → (is_some
                (due_at p u (if is_some (due_at p u z) then z else zadd {K = TimerKey} s (p, u) z))
              || b)
            ≡ true
      back s z b = elim (Bool-cases (is_some (due_at p u z))) [
        | inl e ↦ rw (e, e) refl
        | inr e ↦ rw (e, due_at-zinsert s (zrem {K = TimerKey} (p, u) z)) refl
      ]

      others :
          (s q v : ℕ)
          → (q == p) && (v == u) ≡ false
          → (z : SortedSet TimerKey)
          → due_at p u (if is_some (due_at q v z) then z else zadd {K = TimerKey} s (q, v) z)
            ≡ due_at p u z
      others s q v n z = elim (Bool-cases (is_some (due_at q v z))) [
        | inl e ↦ rw e refl
        | inr e ↦ rw e (
            due_at-zinsert-other q v n s (zrem {K = TimerKey} (q, v) z) ∙ due_at-zrem-other q v n z)
      ]

  is_timed-lease_timers :
      (until : ℕ) (ts : List (ℕ × TimerKey)) (c : Cache)
      → is_timed p u c ≡ true
      → is_timed p u (lease_timers until ts c) ≡ true
  unfolding lease_timers
  is_timed-lease_timers until [] c h = h
  is_timed-lease_timers until ((d, (q, v)) ∷ ts) c h =
      is_timed-lease_timers until ts (lease_timer until (d, (q, v)) c)
        (is_timed-lease_timer until d q v c h)

  is_timed-rescue_timers :
      (now : ℕ) (ts : List (ℕ × TimerKey)) (c : Cache)
      → is_timed p u c ≡ true
      → is_timed p u (rescue_timers now ts c) ≡ true
  unfolding rescue_timers rescue_timer
  is_timed-rescue_timers now [] c h = h
  is_timed-rescue_timers now ((d, (q, v)) ∷ ts) c h =
      is_timed-rescue_timers now ts (rescue_timer now (d, (q, v)) c) (is_timed-reschedule _ q v c h)

  is_timed-nack_timer :
      (retry_at : ℕ) (claim : ExpiryClaim) (c : Cache)
      → is_timed p u c ≡ true
      → is_timed p u (nack_timer retry_at claim c) ≡ true
  unfolding nack_timer
  is_timed-nack_timer retry_at claim c h =
      elim (Bool-cases (
        holds_lease (unix_milli claim.lease_until)
          (due_at claim.product_id claim.user_id c.processing))) [
            | inl e ↦
                rw (nack_timer, e) (is_timed-reschedule retry_at claim.product_id claim.user_id c h)
            | inr e ↦ rw (nack_timer, e) h
          ]

  -- A timer that is scheduled or leased is still scheduled or leased after a worker has claimed what
  -- is due, whatever the time, the lease and the limit.
  claim_expired_script-kept :
      (now until limit : ℕ) (c : Cache)
      → is_timed p u c ≡ true
      → is_timed p u (claim_expired_script now until limit c).1 ≡ true
  unfolding claim_expired_script
  claim_expired_script-kept now until limit c h =
      is_timed-lease_timers until (take limit (zrange_by_score now c.scheduled)) c h

  -- A timer that is scheduled or leased is still scheduled or leased after a worker has returned any
  -- claims, its own or not.
  nack_expired_script-kept :
      (retry_at : ℕ) (claims : List ExpiryClaim) (c : Cache)
      → is_timed p u c ≡ true
      → is_timed p u (nack_expired_script retry_at claims c) ≡ true
  unfolding nack_expired_script
  nack_expired_script-kept retry_at [] c h = h
  nack_expired_script-kept retry_at (claim ∷ claims) c h =
      nack_expired_script-kept retry_at claims (nack_timer retry_at claim c)
        (is_timed-nack_timer retry_at claim c h)

  -- A timer that is scheduled or leased is still scheduled or leased after the leases that have run
  -- out were taken back.
  reclaim_stale_expired_script-kept :
      (lease_now schedule_now : ℕ) (c : Cache)
      → is_timed p u c ≡ true
      → is_timed p u (reclaim_stale_expired_script lease_now schedule_now c) ≡ true
  unfolding reclaim_stale_expired_script
  reclaim_stale_expired_script-kept lease_now schedule_now c h =
      is_timed-rescue_timers schedule_now (zrange_by_score lease_now c.processing) c h

-- A call of one of the three scripts by some worker.
pub data TimerStep : Type 0 where
  claiming : ℕ → ℕ → ℕ → TimerStep
  returning : ℕ → List ExpiryClaim → TimerStep
  taking_back : ℕ → ℕ → TimerStep

abbrev pub timer_step : TimerStep → Cache → Cache
timer_step (claiming now until limit) c = (claim_expired_script now until limit c).1
timer_step (returning retry_at claims) c = nack_expired_script retry_at claims c
timer_step (taking_back lease_now schedule_now) c =
    reclaim_stale_expired_script lease_now schedule_now c

abbrev pub timer_steps : List TimerStep → Cache → Cache
timer_steps [] c = c
timer_steps (x ∷ xs) c = timer_steps xs (timer_step x c)

timer_step-kept :
    (p u : ℕ) (x : TimerStep) (c : Cache)
    → is_timed p u c ≡ true
    → is_timed p u (timer_step x c) ≡ true
timer_step-kept p u (claiming now until limit) c h =
    claim_expired_script-kept p u now until limit c h
timer_step-kept p u (returning retry_at claims) c h =
    nack_expired_script-kept p u retry_at claims c h
timer_step-kept p u (taking_back lease_now schedule_now) c h =
    reclaim_stale_expired_script-kept p u lease_now schedule_now c h

-- A timer that is scheduled or leased is not lost while workers claim what is due, return claims, their
-- own or not, and take back leases that have run out, in any order and at any times, with whichever
-- leases and limits: it is still scheduled or leased.
pub timer_steps-kept :
    (p u : ℕ) (xs : List TimerStep) (c : Cache)
    → is_timed p u c ≡ true
    → is_timed p u (timer_steps xs c) ≡ true
timer_steps-kept p u [] c h = h
timer_steps-kept p u (x ∷ xs) c h =
    timer_steps-kept p u xs (timer_step x c) (timer_step-kept p u x c h)
