-- ===== src/Redis/Fifo/Undo.antt =====
-- A pop that is undone, as AdvanceQueue in service.go does when a later step fails.
use mathlib.Core.Option.{some-injective}
use team_10_queue_serivce.Base.{
  ℕ, ◌+◌, ◌≡◌, refl, sym, ap, subst, ◌∙◌, true, false, [], ◌∷◌, none, some, arith, ==_refl,
}
use team_10_queue_serivce.Models.Status.{is_queued}
use team_10_queue_serivce.Redis.SortedSet.{SortedSet, id_key}
use team_10_queue_serivce.Redis.State.{Cache}
use team_10_queue_serivce.Redis.Scripts.{
  Popped, requeue_script, restore_available_units_script, pop_and_allocate_script,
}
use team_10_queue_serivce.Redis.Order.{is_absent, leads, is_queue, zrem-absent, zinsert-first}
use team_10_queue_serivce.Redis.Fifo.{IsFair}
use team_10_queue_serivce.Redis.Fifo.Pop.{Pops, available, count, pop_and_allocate_script-Pops}

no_head : {A : Type 0} {r : Popped} → none ≡ some r → A
no_head h = cc

heads :
    (s u : ℕ) (z : SortedSet ℕ)
    → is_queue ((s, u) ∷ z) ≡ true
    → (leads s u z ≡ true) × (is_absent u z ≡ true)
heads s u z h = ground arith

module _ (p : ℕ) where
  put_back :
      (score u : ℕ) (rest : SortedSet ℕ) (c : Cache) (r : Popped) (c' : Cache)
      → Pops p score u rest c r c'
      → c.queues p ≡ (score, u) ∷ rest
      → IsFair p c
      → is_queued r.status ≡ false
      → let back =
          requeue_script p r.user_id r.score
            (restore_available_units_script p (r.allocated + r.available) c') in
        (back.queues p ≡ c.queues p)
        × (available p back ≡ available p c)
        × (count p back ≡ count p c)
  unfolding requeue_script restore_available_units_script
  put_back score u rest c r c' k e h q = (
    rw
        (
          requeue_script,
          restore_available_units_script,
          ==_refl p,
          k.same_user,
          k.same_score,
          k.rest_left q,
          zrem-absent u rest (before_rest.1),
        )
        (zinsert-first score u rest before_rest.0 ∙ sym e),
    rw (available, requeue_script, restore_available_units_script, ==_refl p) k.units_taken,
    rw (count, requeue_script, restore_available_units_script, ==_refl p) k.same_count,
  )
    where
      before_rest : (leads score u rest ≡ true) × (is_absent u rest ≡ true)
      before_rest = heads score u rest (ap is_queue (sym e) ∙ h.in_order)

  pop_nothing : (c : Cache) → c.queues p ≡ [] → (pop_and_allocate_script p c).0 ≡ none
  unfolding pop_and_allocate_script
  pop_nothing c e = rw (pop_and_allocate_script, e) refl

  -- Undoing a pop, as AdvanceQueue does when a step fails, gives a fair queue back as it was, head
  -- first, and with it the free units of the pool.
  pub requeue_script-pop :
      (c c' : Cache) (r : Popped)
      → IsFair p c
      → pop_and_allocate_script p c ≡ (some r, c')
      → is_queued r.status ≡ false
      → let back =
          requeue_script p r.user_id r.score
            (restore_available_units_script p (r.allocated + r.available) c') in
        (back.queues p ≡ c.queues p)
        × (available p back ≡ available p c)
        × (count p back ≡ count p c)
  requeue_script-pop c c' r h eq q = by_queue (c.queues p) refl
    where
      by_queue :
          (z : SortedSet ℕ)
          → c.queues p ≡ z
          → let back =
              requeue_script p r.user_id r.score
                (restore_available_units_script p (r.allocated + r.available) c') in
            (back.queues p ≡ c.queues p)
            × (available p back ≡ available p c)
            × (count p back ≡ count p c)
      by_queue [] e = no_head (sym (pop_nothing c e) ∙ ap (λ out. out.0) eq)
      by_queue ((score, u) ∷ rest) e =
          let k =
            subst (λ out. (x : Popped) × ((out.0 ≡ some x) × Pops p score u rest c x out.1)) eq
              (pop_and_allocate_script-Pops p u score c rest e) in
          put_back score u rest c r c'
            (subst (λ x. Pops p score u rest c x c') (some-injective k.0 r (sym k.1.0)) k.1.1) e h q
