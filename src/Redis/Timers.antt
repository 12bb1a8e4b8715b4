-- ===== src/Redis/Timers.antt =====
-- The Lua scripts of cache.go on the expiration timers: due timers move from the schedule to a set
-- of leased ones, from which they are acknowledged, returned, or rescued once the lease is over.
use team_10_queue_serivce.Base.{
  ℕ, Bool, true, false, List, [], ◌∷◌, Option, none, some, ltb, ◌==◌, if◌then◌else◌, update₂, take,
  get_or, is_some,
}
use team_10_queue_serivce.Models.{ExpiryClaim, unix_milli}
use team_10_queue_serivce.Redis.SortedSet.{TimerKey, zadd, zrem, zscore, zrange_by_score, timer_key}
use team_10_queue_serivce.Redis.State.{Cache}

-- One round of the loop of claimExpired.
unfoldable pub lease_timer : ℕ → ℕ × TimerKey → Cache → Cache
lease_timer until (deadline, (p, u)) c = record c {
  scheduled = zrem {K = TimerKey} (p, u) c.scheduled;
  processing = zadd {K = TimerKey} until (p, u) c.processing;
  deadlines = update₂ c.deadlines p u (some deadline);
}

unfoldable pub lease_timers : ℕ → List (ℕ × TimerKey) → Cache → Cache
unfolding lease_timer
lease_timers until [] c = c
lease_timers until (t ∷ ts) c = lease_timers until ts (lease_timer until t c)

-- The due timers, at most `limit` of them, are leased and returned.
unfoldable pub claim_expired_script : ℕ → ℕ → ℕ → Cache → List (ℕ × TimerKey) × Cache
claim_expired_script now until limit c =
    let due = take limit (zrange_by_score now c.scheduled) in (due, lease_timers until due c)

-- Whether the caller's lease is the current one.
abbrev pub holds_lease : ℕ → Option ℕ → Bool
holds_lease until none = false
holds_lease until (some current) = current == until

-- One round of the loop of ackExpired.
unfoldable pub ack_timer : ExpiryClaim → Cache → Cache
ack_timer claim c =
    if holds_lease (unix_milli claim.lease_until)
      (zscore {K = TimerKey} (claim.product_id, claim.user_id) c.processing)
    then record c {
      processing = zrem {K = TimerKey} (claim.product_id, claim.user_id) c.processing;
      deadlines = update₂ c.deadlines claim.product_id claim.user_id none;
    }
    else c

unfoldable pub ack_expired_script : List ExpiryClaim → Cache → Cache
unfolding ack_timer
ack_expired_script [] c = c
ack_expired_script (claim ∷ claims) c = ack_expired_script claims (ack_timer claim c)

-- A timer goes back to the schedule, unless a newer one is there.
unfoldable pub reschedule : ℕ → TimerKey → Cache → Cache
reschedule score (p, u) c = record c {
  processing = zrem {K = TimerKey} (p, u) c.processing;
  deadlines = update₂ c.deadlines p u none;
  scheduled =
      if is_some (zscore {K = TimerKey} (p, u) c.scheduled)
      then c.scheduled
      else zadd {K = TimerKey} score (p, u) c.scheduled;
}

-- One round of the loop of nackExpired.
unfoldable pub nack_timer : ℕ → ExpiryClaim → Cache → Cache
unfolding reschedule
nack_timer retry_at claim c =
    if holds_lease (unix_milli claim.lease_until)
      (zscore {K = TimerKey} (claim.product_id, claim.user_id) c.processing)
    then reschedule retry_at (claim.product_id, claim.user_id) c
    else c

unfoldable pub nack_expired_script : ℕ → List ExpiryClaim → Cache → Cache
unfolding nack_timer
nack_expired_script retry_at [] c = c
nack_expired_script retry_at (claim ∷ claims) c =
    nack_expired_script retry_at claims (nack_timer retry_at claim c)

-- One round of the loop of reclaimStaleExpired: the timer is due again at its first deadline.
unfoldable pub rescue_timer : ℕ → ℕ × TimerKey → Cache → Cache
unfolding reschedule
rescue_timer now (lease, (p, u)) c = reschedule (get_or now (c.deadlines p u)) (p, u) c

unfoldable pub rescue_timers : ℕ → List (ℕ × TimerKey) → Cache → Cache
unfolding rescue_timer
rescue_timers now [] c = c
rescue_timers now (t ∷ ts) c = rescue_timers now ts (rescue_timer now t c)

unfoldable pub reclaim_stale_expired_script : ℕ → ℕ → Cache → Cache
unfolding rescue_timers
reclaim_stale_expired_script lease_now schedule_now c =
    rescue_timers schedule_now (zrange_by_score lease_now c.processing) c

-- `false`: no timer is scheduled. A timer only moves forward.
abbrev pub refresh_from : ℕ → ℕ → ℕ → Option ℕ → Cache → Bool × Cache
refresh_from p u deadline none c = (false, c)
refresh_from p u deadline (some current) c = (
  true,
  if ltb current deadline
      then record c { scheduled = zadd {K = TimerKey} deadline (p, u) c.scheduled }
      else c,
)

unfoldable pub refresh_expiry_timer_script : ℕ → ℕ → ℕ → Cache → Bool × Cache
refresh_expiry_timer_script p u deadline c =
    refresh_from p u deadline (zscore {K = TimerKey} (p, u) c.scheduled) c
