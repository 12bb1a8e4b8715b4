-- ===== src/Rounds/Pop.antt =====
-- What a pop does to the length of a queue.
use team_10_queue_serivce.Base.{
  ℕ, suc, ◌<◌, ◌≡◌, refl, subst, Bool, true, false, [], ◌∷◌, Option, none, some, arith, ltb, leb,
  ◌==◌, if◌then◌else◌, length, ==_refl, inl, inr, Bool-cases,
}
use team_10_queue_serivce.Base.Int.{is_zero}
use team_10_queue_serivce.Models.Status.{is_queued}
use team_10_queue_serivce.Models.{QueueMembership, empty_id}
use team_10_queue_serivce.Redis.State.{Cache, stock_or_zero}
use team_10_queue_serivce.Redis.SortedSet.{SortedSet}
use team_10_queue_serivce.Redis.Scripts.{
  Popped, gets, serve, serve_member, pop_head, pop_and_allocate_script, remove_from_queue_script,
}
use team_10_queue_serivce.Redis.Repo.{named_user, pop_and_allocate}
use team_10_queue_serivce.World.{Store}
use team_10_queue_serivce.World.Triple.{Triple, Triple-call}

module _ (p : ℕ) where
  -- Fewer than `n` users wait for the product.
  abbrev pub Short : ℕ → Store → Type 0
  Short n st = length (st.cache.queues p) < n

  removed :
      (u score : ℕ) (c : Cache) (rest : SortedSet ℕ)
      → c.queues p ≡ (score, u) ∷ rest
      → length ((remove_from_queue_script p u c).queues p) ≡ length rest
  unfolding remove_from_queue_script
  removed u score c rest e = rw (remove_from_queue_script, ==_refl p, e, ==_refl u) refl

  serve_off :
      (u score quantity : ℕ) (c : Cache) (rest : SortedSet ℕ)
      → c.queues p ≡ (score, u) ∷ rest
      → is_queued (serve p u score quantity c).0.status ≡ false
      → length ((serve p u score quantity c).1.queues p) ≡ length rest
  serve_off u score quantity c rest e h =
      elim (Bool-cases (is_zero (stock_or_zero (c.stocks p)).product_count)) [
        | inl f ↦ rw f (removed u score c rest e)
        | inr f ↦ elim (Bool-cases (leb quantity (stock_or_zero (c.stocks p)).available_units)) [
          | inl g ↦ rw (f, g) (removed u score _ rest e)
          | inr g ↦ elim (Bool-cases (ltb 0 (stock_or_zero (c.stocks p)).available_units)) [
            | inl k ↦ rw (f, g, k) (removed u score _ rest e)
            | inr k ↦ cc
          ]
        ]
      ]

  served_off :
      (u score : ℕ) (o : Option QueueMembership) (c : Cache) (rest : SortedSet ℕ)
      → c.queues p ≡ (score, u) ∷ rest
      → is_queued (serve_member p u score o c).0.status ≡ false
      → length ((serve_member p u score o c).1.queues p) ≡ length rest
  served_off u score none c rest e h = removed u score c rest e
  served_off u score (some m) c rest e h = elim (Bool-cases (is_queued m.status)) [
    | inl f ↦ rw f (
        serve_off u score m.quantity c rest e (
          subst
            (λ b.
              is_queued
                (if b
                  then serve p u score m.quantity c
                  else (gets u score 0 0 m.status, remove_from_queue_script p u c)).0.status
              ≡ false)
            f h))
    | inr f ↦ rw f (removed u score c rest e)
  ]

  -- What a pop leaves behind: unless the head stays, fewer users wait.
  abbrev pub Taken : ℕ → Option Popped → Store → Type 0
  Taken n none st = Unit
  Taken n (some r) st = is_queued r.status ≡ false → Short n st

  pop_head-Taken :
      (n : ℕ) (z : SortedSet ℕ) (st : Store)
      → st.cache.queues p ≡ z
      → length z < suc n
      → let r = pop_head p z st.cache in Taken n (named_user r.0) (record st { cache = r.1 })
  pop_head-Taken n [] st e h = tt
  pop_head-Taken n ((score, u) ∷ rest) st e h = named (served.0.user_id == empty_id)
    where
      served : Popped × Cache
      served = serve_member p u score (st.cache.members p u) st.cache

      named :
          (b : Bool) → Taken n (if b then none else some served.0) (record st { cache = served.1 })
      named true = tt
      named false = λ q. omega (arith, served_off u score (st.cache.members p u) st.cache rest e q)

  pub pop_and_allocate-Taken :
      (n : ℕ) → Triple (Short (suc n)) (pop_and_allocate p) (Taken n) (λ _. Unit)
  unfolding pop_and_allocate pop_and_allocate_script
  pop_and_allocate-Taken n =
      Triple-call _ (λ now st h. pop_head-Taken n (st.cache.queues p) st refl h) (λ st h. tt)
