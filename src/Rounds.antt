-- ===== src/Rounds.antt =====
-- The rounds of AdvanceQueue in backend/internal/service/queue_service.go: its loop ends.
mod Pop
use team_10_queue_serivce.Base.{
  ℕ, zero, suc, ◌<◌, ◌≤◌, ◌≡◌, ◌≢◌, refl, sym, subst, Bool, true, false, ◌||◌, [], ◌∷◌, Option,
  none, some, arith, ltb, leb, ◌==◌, if◌then◌else◌, length, is_some, ==_refl, inl, inr, Bool-cases,
}
use team_10_queue_serivce.Base.Int.{is_zero}
use team_10_queue_serivce.Models.Status.{
  MembershipStatus, right_active, offer_pending, sold_out, is_queued,
}
use team_10_queue_serivce.Models.{QueueMembership, Right, concurrent_join, empty_id}
use team_10_queue_serivce.Models.Result.{Result, ok, err, with_rollback}
use team_10_queue_serivce.Redis.State.{Cache, stock_or_zero}
use team_10_queue_serivce.Redis.SortedSet.{SortedSet}
use team_10_queue_serivce.Redis.Scripts.{
  Popped, gets, serve, serve_member, pop_head, pop_and_allocate_script, remove_from_queue_script,
  claim_set_nx, release_membership_claim_script,
}
use team_10_queue_serivce.Redis.Repo.{
  named_user, pop_and_allocate, set_right, add_to_expiry_timer, set_membership, publish_event,
  get_membership, found, claim_membership, release_membership_claim,
}
use team_10_queue_serivce.World.{
  Store, World, M, pure, raise, finally, on_cache, change_durable, committed, when,
}
use team_10_queue_serivce.World.Triple.{
  Ends, Triple, Leaves, Triple-pure, Triple-raise, Triple-call, Triple-bind, Triple-if,
  Triple-before, Triple-error, Triple-clock, Triple-uuid, Triple-attempt, Leaves-after,
}
use team_10_queue_serivce.Postgres.State.{Durable}
use team_10_queue_serivce.Service.Config.{QueueService, issue_right, upsert}
use team_10_queue_serivce.Service.Sync.{sync_cache_state, cache_right}
use team_10_queue_serivce.Service.Advance.{
  rollback_advance, after_rollback, or_rollback, advance_right, advance_offer, advance_sold_out,
  advance_by_status, apply_advance_step, advance_claimed, is_served, advance_round, advance_loop,
  rounds_for,
}
use team_10_queue_serivce.Rounds.Pop.{Short, Taken, pop_and_allocate-Taken}

anything : {A : Type 0} (m : M A) → Triple (λ _. Unit) m (λ _ _. Unit) (λ _. Unit)
anything {A} m = record { from = λ w h. ends (m w).0 (m w).1.store }
  where
    ends : (r : Result A) (st : Store) → Ends (λ _ _. Unit) (λ _. Unit) r st
    ends (ok a) st = tt
    ends (err e) st = tt

module _ (p : ℕ) where
  module _ (n : ℕ) where
    -- An action that, unless it fails, leaves the queue as short as it was.
    abbrev Keeps : {A : Type 0} → M A → Type 0
    Keeps m = Triple (Short p n) m (λ _. Short p n) (λ _. Unit)

    done : {A : Type 0} (a : A) → Keeps (pure a)
    done a = Triple-pure a (λ st h. h)

    Leaves-cache :
        {A : Type 0} (f : ℕ → Cache → A × Cache)
        → ((now : ℕ) (c : Cache) → (f now c).1.queues ≡ c.queues)
        → Leaves (Short p n) (on_cache f) (Short p n)
    Leaves-cache f k =
        Triple-call _ (λ now st h. subst (λ q. length (q p) < n) (sym (k now st.cache)) h)
          (λ st h. h)

    Keeps-cache :
        {A : Type 0} (f : ℕ → Cache → A × Cache)
        → ((now : ℕ) (c : Cache) → (f now c).1.queues ≡ c.queues)
        → Keeps (on_cache f)
    Keeps-cache f k = Triple-error _ (λ st h. tt) (Leaves-cache f k)

    Keeps-durable : (f : ℕ → Durable → Result Durable) → Keeps (change_durable f)
    Keeps-durable f = Triple-call _ (λ now st h. ends (f now st.durable) st h) (λ st h. tt)
      where
        ends :
            (r : Result Durable) (st : Store)
            → Short p n st
            → Ends (λ _. Short p n) (λ _. Unit) (committed r st).0 (committed r st).1
        ends (ok d) st h = h
        ends (err e) st h = tt

    Keeps-or_rollback :
        {A : Type 0} (q u k score : ℕ) (m : M A) → Keeps m → Keeps (or_rollback q u k score m)
    unfolding or_rollback
    Keeps-or_rollback q u k score m h =
        Triple-attempt m (after_rollback q u k score) h (λ a. done a)
          λ e.
            Triple-attempt (rollback_advance q u k score) (λ undone. raise (with_rollback e undone))
              (anything _) (λ _. Triple-raise _ (λ st x. tt)) (λ _. Triple-raise _ (λ st x. tt))

    Keeps-finally :
        {A : Type 0} (m : M A) (c : M (Unit {0}))
        → Keeps m
        → Leaves (Short p n) c (Short p n)
        → Keeps (finally m c)
    Keeps-finally {A = A} m c h k = record { from = λ w x. settled (m w).0 (m w).1 (h.from w x) }
      where
        settled :
            (r : Result A) (w : World)
            → Ends (λ _. Short p n) (λ _. Unit) r w.store
            → Ends (λ _. Short p n) (λ _. Unit) r (c w).1.store
        settled (ok a) w x = Leaves-after c k w x
        settled (err e) w x = tt

    Keeps-cache_right : (r : Option Right) → Keeps (cache_right r)
    unfolding set_right
    Keeps-cache_right none = done tt
    Keeps-cache_right (some r) = Keeps-cache _ (λ now c. refl)

    Keeps-when : (b : Bool) (m : M (Unit {0})) → Keeps m → Keeps (when b m)
    Keeps-when b m h = Triple-if b m (pure tt) (λ e. h) (λ e. done tt)

    Keeps-sync :
        (s : QueueService) (m : QueueMembership) (r : Option Right) → Keeps (sync_cache_state s m r)
    unfolding sync_cache_state add_to_expiry_timer set_membership publish_event
    Keeps-sync s m r = Triple-bind _ _ (Keeps-cache_right r) λ _.
        Triple-bind _ _
          (Keeps-when (is_queued m.status || is_some m.expires_at) _
            (Triple-clock _ (λ now. Keeps-cache _ (λ now c. refl))))
          λ _. Triple-bind _ _ (Keeps-cache _ (λ now c. refl)) λ _.
            Triple-attempt _ (λ _. pure tt) (Leaves-cache _ (λ now c. refl)) (λ _. done tt)
              (λ _. done tt)

    module _ (s : QueueService) (r : Popped) where
      Keeps-by_status :
          (status : MembershipStatus) (m : QueueMembership) (now : ℕ)
          → Keeps (advance_by_status status s p r m now)
      unfolding advance_right advance_offer advance_sold_out issue_right upsert
      Keeps-by_status right_active m now = Triple-uuid _ λ token.
          Triple-bind _ _ (Keeps-or_rollback p r.user_id _ r.score _ (Keeps-durable _))
            (λ _. Keeps-sync s _ _)
      Keeps-by_status offer_pending m now =
          Triple-bind _ _ (Keeps-or_rollback p r.user_id _ r.score _ (Keeps-durable _))
            (λ _. Keeps-sync s _ _)
      Keeps-by_status sold_out m now =
          Triple-bind _ _ (Keeps-or_rollback p r.user_id _ r.score _ (Keeps-durable _))
            (λ _. Keeps-sync s _ _)
      Keeps-by_status _ m now = done tt

      Keeps-get_membership : (u : ℕ) → Keeps (get_membership p u)
      unfolding get_membership
      Keeps-get_membership u =
          Triple-call _ (λ now st h. ends (st.cache.members p u) st h) (λ st h. tt)
        where
          ends :
              (o : Option QueueMembership) (st : Store)
              → Short p n st
              → Ends (λ _. Short p n) (λ _. Unit) (found o) st
          ends none st h = tt
          ends (some m) st h = h

      Keeps-apply_step : Keeps (apply_advance_step s p r)
      unfolding apply_advance_step
      Keeps-apply_step =
          Triple-bind _ _
            (Keeps-or_rollback p r.user_id _ r.score _ (Keeps-get_membership r.user_id))
            λ m. Triple-clock _ (λ now. Keeps-by_status r.status m now)

      Keeps-advance_claimed : Keeps (advance_claimed s p r)
      unfolding advance_claimed claim_membership release_membership_claim claim_set_nx
          release_membership_claim_script
      Keeps-advance_claimed = Triple-uuid _ λ owner.
          Triple-bind _ _
            (Keeps-or_rollback p r.user_id _ r.score _ (
              Triple-bind _ _ (Keeps-cache _ (λ now c. ground arith)) λ won.
                Triple-if won _ _ (λ e. done tt) (λ e. Triple-raise concurrent_join (λ st h. tt))))
            (λ _. Keeps-finally _ _ Keeps-apply_step (Leaves-cache _ (λ now c. ground arith)))

  -- With more rounds than users wait, the loop does not run out of them.
  loop_ends :
      (s : QueueService) (rounds : ℕ)
      → Triple (Short p rounds) (advance_loop rounds s p) (λ b st. b ≡ true) (λ _. Unit)
  unfolding advance_loop
  loop_ends s zero = Triple-pure false (λ st h. ground arith)
  loop_ends s (suc rounds) =
      let rest = loop_ends s rounds in
      Triple-bind _ _ (pop_and_allocate-Taken p rounds) λ popped. by_reply rest popped
    where
      by_reply :
          Triple (Short p rounds) (advance_loop rounds s p) (λ b st. b ≡ true) (λ _. Unit)
          → (popped : Option Popped)
          → Triple
              (Taken p rounds popped)
              (advance_round (advance_loop rounds s p) s p popped)
              (λ b st. b ≡ true)
              (λ _. Unit)
      by_reply h none = Triple-pure true (λ st k. refl)
      by_reply h (some r) =
          Triple-if (is_queued r.status) _ _ (λ e. Triple-pure true (λ st k. refl))
            λ e.
              Triple-before _ (λ st k. k e)
                (Triple-if (is_served r.status) _ _
                  (λ f. Triple-bind _ _ (Keeps-advance_claimed rounds s r) (λ _. h)) (λ f. h))

  -- The loop of AdvanceQueue never reaches the bound on its rounds, if the bound is the model's own or
  -- a greater one, whichever remote calls fail.
  pub advance_loop-ends :
      (s : QueueService) (rounds : ℕ) (w : World)
      → rounds_for p w ≤ rounds
      → (advance_loop rounds s p w).0 ≢ ok false
  advance_loop-ends s rounds w le e = refused (
      subst (λ r. Ends (λ b st. b ≡ true) (λ _. Unit) r (advance_loop rounds s p w).1.store) e
        ((loop_ends s rounds).from w (omega arith)))
    where
      refused : false ≡ true → ⊥
      refused h = cc
