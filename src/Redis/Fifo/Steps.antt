-- ===== src/Redis/Fifo/Steps.antt =====
-- Any sequence of the scripts of cache.go that change a product's queue.
use team_10_queue_serivce.Base.{
  ℕ, ◌+◌, ◌≤◌, ◌++◌, ◌≡◌, refl, sym, ap, ◌∙◌, true, [], ◌∷◌, arith, inl, inr, Bool-cases,
}
use team_10_queue_serivce.Models.Status.{is_queued}
use team_10_queue_serivce.Redis.SortedSet.{SortedSet, id_key}
use team_10_queue_serivce.Redis.State.{Cache}
use team_10_queue_serivce.Redis.Scripts.{
  Popped, remove_from_queue_script, requeue_script, enqueue_script, pop_and_allocate_script,
}
use team_10_queue_serivce.Redis.Order.{is_absent, is_queue, is_below}
use team_10_queue_serivce.Redis.Fifo.{
  IsFair, enqueue_script-IsFair, remove_from_queue_script-IsFair, requeue_script-IsFair,
  enqueue_script-last,
}
use team_10_queue_serivce.Redis.Fifo.Pop.{Pops, pop_and_allocate_script-Pops}

tail_below : (n s u : ℕ) (z : SortedSet ℕ) → is_below n ((s, u) ∷ z) ≡ true → is_below n z ≡ true
tail_below n s u z h = ground arith

tail_queue : (s u : ℕ) (z : SortedSet ℕ) → is_queue ((s, u) ∷ z) ≡ true → is_queue z ≡ true
tail_queue s u z h = ground arith

module _ (p : ℕ) where
  Pops-IsFair :
      (score u : ℕ) (rest : SortedSet ℕ) (c : Cache) (r : Popped) (c' : Cache)
      → Pops p score u rest c r c'
      → c.queues p ≡ (score, u) ∷ rest
      → IsFair p c
      → IsFair p c'
  Pops-IsFair score u rest c r c' k e h = elim (Bool-cases (is_queued r.status)) [
    | inl q ↦ record {
      in_order = ap is_queue (k.all_left q) ∙ h.in_order;
      counted = rw (k.all_left q, k.same_seq) h.counted;
    }
    | inr q ↦ record {
      in_order =
          ap is_queue (k.rest_left q) ∙ tail_queue score u rest (ap is_queue (sym e) ∙ h.in_order);
      counted =
          rw (k.rest_left q, k.same_seq)
            (tail_below (c.seqs p) score u rest (ap (is_below (c.seqs p)) (sym e) ∙ h.counted));
    }
  ]

  -- A pop keeps the queue fair.
  pop_and_allocate_script-IsFair :
      (c : Cache) → IsFair p c → IsFair p (pop_and_allocate_script p c).1
  unfolding pop_and_allocate_script
  pop_and_allocate_script-IsFair c h = by_queue (c.queues p) refl
    where
      by_queue : (z : SortedSet ℕ) → c.queues p ≡ z → IsFair p (pop_and_allocate_script p c).1
      by_queue [] e = rw (pop_and_allocate_script, e) h
      by_queue ((score, u) ∷ rest) e =
          let k = pop_and_allocate_script-Pops p u score c rest e in
          Pops-IsFair score u rest c k.0 _ k.1.1 e h

-- One script on the product's queue. An entry that goes back has a score that was given before.
pub data QueueStep (p : ℕ) (c : Cache) : Cache → Type 0 where
  entering : (u : ℕ) → QueueStep p c (enqueue_script p u c)
  popping : QueueStep p c (pop_and_allocate_script p c).1
  leaving : (u : ℕ) → QueueStep p c (remove_from_queue_script p u c)
  going_back : (u score : ℕ) → score ≤ c.seqs p → QueueStep p c (requeue_script p u score c)

pub data QueueSteps (p : ℕ) (c : Cache) : Cache → Type 0 where
  start : QueueSteps p c c
  later : {x y : Cache} → QueueSteps p c x → QueueStep p x y → QueueSteps p c y

QueueStep-IsFair : (p : ℕ) {c c' : Cache} → QueueStep p c c' → IsFair p c → IsFair p c'
QueueStep-IsFair p (entering u) h = enqueue_script-IsFair p u _ h
QueueStep-IsFair p popping h = pop_and_allocate_script-IsFair p _ h
QueueStep-IsFair p (leaving u) h = remove_from_queue_script-IsFair p u _ h
QueueStep-IsFair p (going_back u score le) h = requeue_script-IsFair p u score _ le h

QueueSteps-IsFair : (p : ℕ) {c c' : Cache} → QueueSteps p c c' → IsFair p c → IsFair p c'
QueueSteps-IsFair p start h = h
QueueSteps-IsFair p (later xs x) h = QueueStep-IsFair p x (QueueSteps-IsFair p xs h)

-- However users enter, are popped, leave and go back, one script after the other, a product's queue
-- that was in order, with nobody in it twice, is so still, and a user who is not in it then and enters
-- stands behind everyone who waits.
pub QueueSteps-last :
    (p u : ℕ) (c c' : Cache)
    → IsFair p c
    → QueueSteps p c c'
    → is_absent u (c'.queues p) ≡ true
    → IsFair p c' × ((enqueue_script p u c').queues p ≡ c'.queues p ++ (c'.seqs p + 1, u) ∷ [])
QueueSteps-last p u c c' h xs n =
    let fair = QueueSteps-IsFair p xs h in (fair, enqueue_script-last p u c' fair n)
