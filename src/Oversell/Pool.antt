-- ===== src/Oversell/Pool.antt =====
-- What the scripts that take units from the pool and give them back do to the units of a product.
use team_10_queue_serivce.Base.{
  ℕ, ◌+◌, Option, none, some, arith, inl, inr, ◌==◌, Bool-cases, [], ◌∷◌,
}
use team_10_queue_serivce.Models.{QueueMembership, empty_id}
use team_10_queue_serivce.Redis.SortedSet.{SortedSet}
use team_10_queue_serivce.Redis.State.{Cache}
use team_10_queue_serivce.Redis.Scripts.{
  Popped, allocate_script, remove_from_queue_script, restore_available_units_script,
  pop_and_allocate_script, serve_member, pop_head,
}
use team_10_queue_serivce.Redis.Repo.{
  try_allocate, restore_available_units, pop_and_allocate, named_user,
}
use team_10_queue_serivce.World.{Store}
use team_10_queue_serivce.World.Triple.{Triple, Leaves, Triple-call}
use team_10_queue_serivce.Oversell.{Unsaved, units_at, NoOversell}
use team_10_queue_serivce.Oversell.Calls.{NoOversell-mono}

module _ (total : Unsaved) (p : ℕ) where
  restored_units :
      (q n : ℕ) (st : Store)
      → NoOversell total p (units_at q n p) st
      → NoOversell total p 0 (record st { cache = restore_available_units_script q n st.cache })
  unfolding restore_available_units_script
  restored_units q n st h = record { keyed = h.keyed; bounded = ground (arith, h.bounded) }

  -- What is given back moves from under way to the pool.
  pub Leaves-restore :
      (q n : ℕ)
      → Leaves
          (NoOversell total p (units_at q n p))
          (restore_available_units q n)
          (NoOversell total p 0)
  unfolding restore_available_units
  Leaves-restore q n =
      Triple-call _ (λ now st h. restored_units q n st h)
        (λ st h. NoOversell-mono total p st (omega arith) h)

  taken_units :
      (q n : ℕ) (st : Store)
      → NoOversell total p 0 st
      → let (a, c) = allocate_script q n st.cache in
        NoOversell total p (units_at q (a.allocated + a.available) p) (record st { cache = c })
  unfolding allocate_script
  taken_units q n st h = record {
    keyed = ground (arith, h.keyed);
    bounded = ground (arith, h.bounded);
  }

  -- What a newcomer gets leaves the pool in the same step.
  pub try_allocate-Triple :
      (q n : ℕ)
      → Triple
          (NoOversell total p 0)
          (try_allocate q n)
          (λ a. NoOversell total p (units_at q (a.allocated + a.available) p))
          (NoOversell total p 0)
  unfolding try_allocate
  try_allocate-Triple q n = Triple-call _ (λ now st h. taken_units q n st h) (λ st h. h)

  -- The units that the reply of the pop has taken.
  abbrev pub popped_units : ℕ → Option Popped → ℕ
  popped_units q none = 0
  popped_units q (some r) = units_at q (r.allocated + r.available) p

  served_units :
      (q score u : ℕ) (m : Option QueueMembership) (st : Store)
      → NoOversell total p 0 st
      → let (r, c) = serve_member q u score m st.cache in
        NoOversell total p (units_at q (r.allocated + r.available) p) (record st { cache = c })
  unfolding remove_from_queue_script
  served_units q score u none st h = record { keyed = h.keyed; bounded = ground (arith, h.bounded) }
  served_units q score u (some m) st h = record {
    keyed = ground (arith, h.keyed);
    bounded = ground (arith, h.bounded);
  }

  popped_from :
      (q : ℕ) (z : SortedSet ℕ) (st : Store)
      → NoOversell total p 0 st
      → let (r, c) = pop_head q z st.cache in
        NoOversell total p (popped_units q (named_user r)) (record st { cache = c })
  popped_from q [] st h = h
  popped_from q ((score, u) ∷ z) st h =
      let served = served_units q score u (st.cache.members q u) st h in
      named (serve_member q u score (st.cache.members q u) st.cache).0 served
    where
      named :
          {c : Cache} (r : Popped)
          → NoOversell total p (units_at q (r.allocated + r.available) p) (record st { cache = c })
          → NoOversell total p (popped_units q (named_user (some r))) (record st { cache = c })
      named r k = elim (Bool-cases (r.user_id == empty_id)) [
        | inl e ↦ rw e (NoOversell-mono total p _ (omega arith) k)
        | inr e ↦ rw e k
      ]

  -- So do the units of the queue's head.
  pub pop_and_allocate-Triple :
      (q : ℕ)
      → Triple
          (NoOversell total p 0)
          (pop_and_allocate q)
          (λ r. NoOversell total p (popped_units q r))
          (NoOversell total p 0)
  unfolding pop_and_allocate pop_and_allocate_script
  pop_and_allocate-Triple q =
      Triple-call _ (λ now st h. popped_from q (st.cache.queues q) st h) (λ st h. h)
