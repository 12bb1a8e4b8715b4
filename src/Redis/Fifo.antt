-- ===== src/Redis/Fifo.antt =====
-- The queue of a product is first in, first out: the scripts of cache.go that change it.
pub mod Pop
pub mod Undo
pub mod Steps
use mathlib.Core.Option.{some-injective}
use team_10_queue_serivce.Base.{
  ℕ, ◌+◌, ◌-◌, ◌≤◌, ◌≡◌, refl, sym, ap, subst, ◌∙◌, true, false, [], ◌∷◌, ◌++◌, Option, none, some,
  arith, ltb, leb, inl, inr, Bool-cases, ==_refl,
}
use team_10_queue_serivce.Base.Int.{ℤ, is_zero}
use team_10_queue_serivce.Models.{QueueMembership}
use team_10_queue_serivce.Models.Status.{is_queued}
use team_10_queue_serivce.Redis.SortedSet.{SortedSet, id_key, zrem, zinsert}
use team_10_queue_serivce.Redis.State.{Cache, stock_or_zero}
use team_10_queue_serivce.Redis.Scripts.{
  Popped, set_available, enqueue_script, remove_from_queue_script, requeue_script,
  restore_available_units_script, serve, serve_member, pop_and_allocate_script,
}
use team_10_queue_serivce.Redis.Order.{
  is_absent, leads, is_queue, is_below, zrem-is_queue, zrem-absent, zadd-is_queue, zinsert-last,
  zinsert-first,
}

-- The queue is in order, nobody waits twice, and no score is above the counter of entries.
pub record IsFair (p : ℕ) (c : Cache) : Type 0 where
  pub in_order : is_queue (c.queues p) ≡ true
  pub counted : is_below (c.seqs p) (c.queues p) ≡ true

is_below-zrem :
    (n k : ℕ) (z : SortedSet ℕ) → is_below n z ≡ true → is_below n (zrem {K = ℕ} k z) ≡ true
is_below-zrem n k [] h = refl
is_below-zrem n k ((s, u) ∷ z) h = ground (arith, is_below-zrem n k z)

is_below-zinsert :
    (m n s k : ℕ) (z : SortedSet ℕ)
    → m ≤ n
    → s ≤ n
    → is_below m z ≡ true
    → is_below n (zinsert {K = ℕ} s k z) ≡ true
is_below-zinsert m n s k [] le h b = ground arith
is_below-zinsert m n s k ((t, u) ∷ z) le h b =
    ground (arith, is_below-zinsert m n s k z, is_below-mono m n z)
  where
    is_below-mono : (m n : ℕ) (z : SortedSet ℕ) → m ≤ n → is_below m z ≡ true → is_below n z ≡ true
    is_below-mono m n [] le b = refl
    is_below-mono m n ((s, u) ∷ z) le b = ground (arith, is_below-mono m n z)

module _ (p : ℕ) where
  pub enqueue_script-IsFair : (u : ℕ) (c : Cache) → IsFair p c → IsFair p (enqueue_script p u c)
  unfolding enqueue_script
  enqueue_script-IsFair u c h = record {
    in_order = rw (==_refl p) (zadd-is_queue (c.seqs p + 1) u (c.queues p) h.in_order);
    counted = rw (==_refl p) (
        is_below-zinsert (c.seqs p) (c.seqs p + 1) (c.seqs p + 1) u (zrem {K = ℕ} u (c.queues p))
          (omega arith) (omega arith) (is_below-zrem (c.seqs p) u (c.queues p) h.counted));
  }

  -- Someone new stands behind everyone who waits.
  pub enqueue_script-last :
      (u : ℕ) (c : Cache)
      → IsFair p c
      → is_absent u (c.queues p) ≡ true
      → (enqueue_script p u c).queues p ≡ c.queues p ++ (c.seqs p + 1, u) ∷ []
  unfolding enqueue_script
  enqueue_script-last u c h n =
      rw (enqueue_script, ==_refl p, zrem-absent u (c.queues p) n)
        (zinsert-last (c.seqs p) (c.seqs p + 1) u (c.queues p) (ground arith) h.counted)

  pub remove_from_queue_script-IsFair :
      (u : ℕ) (c : Cache) → IsFair p c → IsFair p (remove_from_queue_script p u c)
  unfolding remove_from_queue_script
  remove_from_queue_script-IsFair u c h = record {
    in_order = rw (==_refl p) (zrem-is_queue u (c.queues p) h.in_order);
    counted = rw (==_refl p) (is_below-zrem (c.seqs p) u (c.queues p) h.counted);
  }

  pub requeue_script-IsFair :
      (u score : ℕ) (c : Cache)
      → score ≤ c.seqs p
      → IsFair p c
      → IsFair p (requeue_script p u score c)
  unfolding requeue_script
  requeue_script-IsFair u score c le h = record {
    in_order = rw (==_refl p) (zadd-is_queue score u (c.queues p) h.in_order);
    counted = rw (==_refl p) (
        is_below-zinsert (c.seqs p) (c.seqs p) score u (zrem {K = ℕ} u (c.queues p)) (omega arith)
          le (is_below-zrem (c.seqs p) u (c.queues p) h.counted));
  }
