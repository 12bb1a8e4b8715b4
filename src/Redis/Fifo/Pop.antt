-- ===== src/Redis/Fifo/Pop.antt =====
-- What a pop of a queue does: popAndAllocate in cache.go.
use team_10_queue_serivce.Base.{
  ℕ, ◌+◌, ◌-◌, ◌≡◌, refl, true, false, ◌∷◌, Option, none, some, arith, ltb, leb, inl, inr,
  Bool-cases, ==_refl,
}
use team_10_queue_serivce.Base.Int.{ℤ, is_zero}
use team_10_queue_serivce.Models.{QueueMembership}
use team_10_queue_serivce.Models.Status.{is_queued}
use team_10_queue_serivce.Redis.SortedSet.{SortedSet, id_key}
use team_10_queue_serivce.Redis.State.{Cache, stock_or_zero}
use team_10_queue_serivce.Redis.Scripts.{
  Popped, set_available, remove_from_queue_script, serve, serve_member, pop_and_allocate_script,
}

module _ (p : ℕ) where
  -- The counters of the product.
  abbrev pub available : Cache → ℕ
  available c = (stock_or_zero (c.stocks p)).available_units

  abbrev pub count : Cache → ℤ
  count c = (stock_or_zero (c.stocks p)).product_count

  -- What a pop does to a queue with the given head.
  pub record Pops (score u : ℕ) (rest : SortedSet ℕ) (c : Cache) (r : Popped) (c' : Cache)
      : Type 0 where
    pub same_user : r.user_id ≡ u
    pub same_score : r.score ≡ score
    pub rest_left : is_queued r.status ≡ false → c'.queues p ≡ rest
    pub all_left : is_queued r.status ≡ true → c'.queues p ≡ c.queues p
    pub same_seq : c'.seqs p ≡ c.seqs p
    pub units_taken : available c' + (r.allocated + r.available) ≡ available c
    pub same_count : count c' ≡ count c

  removed_head :
      (u score : ℕ) (c : Cache) (rest : SortedSet ℕ)
      → c.queues p ≡ (score, u) ∷ rest
      → (remove_from_queue_script p u c).queues p ≡ rest
  unfolding remove_from_queue_script
  removed_head u score c rest e = rw (remove_from_queue_script, ==_refl p, e, ==_refl u) refl

  serve-Pops :
      (u score quantity : ℕ) (c : Cache) (rest : SortedSet ℕ)
      → c.queues p ≡ (score, u) ∷ rest
      → Pops score u rest c (serve p u score quantity c).0 (serve p u score quantity c).1
  unfolding remove_from_queue_script
  serve-Pops u score quantity c rest e = elim (Bool-cases (is_zero (count c))) [
    | inl f ↦ rw f (record {
      same_user = refl;
      same_score = refl;
      rest_left = λ _. removed_head u score c rest e;
      all_left = λ x. cc;
      same_seq = refl;
      units_taken = omega arith;
      same_count = refl;
    })
    | inr f ↦ elim (Bool-cases (leb quantity (available c))) [
      | inl g ↦
          rw (f, g)
            (record {
              same_user = refl;
              same_score = refl;
              rest_left =
                  λ _. removed_head u score (set_available p (available c - quantity) c) rest e;
              all_left = λ x. cc;
              same_seq = refl;
              units_taken = rw (available, ==_refl p) (ground (arith, g));
              same_count = rw (count, ==_refl p) refl;
            })
      | inr g ↦ elim (Bool-cases (ltb 0 (available c))) [
        | inl k ↦
            rw (f, g, k)
              (record {
                same_user = refl;
                same_score = refl;
                rest_left = λ _.
                    removed_head u score (set_available p (available c - available c) c) rest e;
                all_left = λ x. cc;
                same_seq = refl;
                units_taken = rw (available, ==_refl p) (omega arith);
                same_count = rw (count, ==_refl p) refl;
              })
        | inr k ↦
            rw (f, g, k)
              (record {
                same_user = refl;
                same_score = refl;
                rest_left = λ x. cc;
                all_left = λ x. refl;
                same_seq = refl;
                units_taken = omega arith;
                same_count = refl;
              })
      ]
    ]
  ]

  serve_member-Pops :
      (u score : ℕ) (o : Option QueueMembership) (c : Cache) (rest : SortedSet ℕ)
      → c.queues p ≡ (score, u) ∷ rest
      → Pops score u rest c (serve_member p u score o c).0 (serve_member p u score o c).1
  unfolding remove_from_queue_script
  serve_member-Pops u score none c rest e = record {
    same_user = refl;
    same_score = refl;
    rest_left = λ _. removed_head u score c rest e;
    all_left = λ x. cc;
    same_seq = refl;
    units_taken = omega arith;
    same_count = refl;
  }
  serve_member-Pops u score (some m) c rest e = elim (Bool-cases (is_queued m.status)) [
    | inl f ↦ rw f (serve-Pops u score m.quantity c rest e)
    | inr f ↦ rw f (record {
      same_user = refl;
      same_score = refl;
      rest_left = λ _. removed_head u score c rest e;
      all_left = λ x. cc;
      same_seq = refl;
      units_taken = omega arith;
      same_count = refl;
    })
  ]

  -- A pop of a queue with users answers for the first of them, with their score. The others stay as
  -- they were; the head stays too, if it is still to wait, and leaves otherwise. What it gets is what
  -- the pool loses, and the physical stock is the same.
  pub pop_and_allocate_script-Pops :
      (u score : ℕ) (c : Cache) (rest : SortedSet ℕ)
      → c.queues p ≡ (score, u) ∷ rest
      → (r : Popped) × (((pop_and_allocate_script p c).0 ≡ some r)
          × Pops score u rest c r (pop_and_allocate_script p c).1)
  unfolding pop_and_allocate_script
  pop_and_allocate_script-Pops u score c rest e =
      rw (pop_and_allocate_script, e)
        (served, (refl, serve_member-Pops u score (c.members p u) c rest e))
    where
      served : Popped
      served = (serve_member p u score (c.members p u) c).0
