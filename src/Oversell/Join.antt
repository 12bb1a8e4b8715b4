-- ===== src/Oversell/Join.antt =====
-- JoinQueue never promises a unit twice, whichever of its calls fail.
use team_10_queue_serivce.Base.{
  subst, sym, ℕ, zero, suc, ◌+◌, ◌≡◌, refl, Bool, Option, none, some, arith, ltb, ◌==◌, ◌≢◌,
}
use team_10_queue_serivce.Base.Int.{ℤ, pos, negsuc}
use team_10_queue_serivce.Models.Status.{
  MembershipStatus, queued, right_active, offer_pending, is_queued,
}
use team_10_queue_serivce.Models.{
  QueueMembership, quantity_invalid, concurrent_join, cancelled, is_token_not_found,
}
use team_10_queue_serivce.Models.Result.{with_rollback}
use team_10_queue_serivce.Redis.Scripts.{Allocation}
use team_10_queue_serivce.Redis.Repo.{
  get_right, get_membership, release_queue_slot, restore_available_units,
}
use team_10_queue_serivce.World.{Store, M, raise, when}
use team_10_queue_serivce.World.Triple.{
  Triple, Leaves, Triple-call, Triple-pure, Triple-bind, Triple-if, Triple-before, Triple-clock,
  Triple-uuid, Triple-attempt, Triple-given,
}
use team_10_queue_serivce.Service.Config.{QueueService, get_initial_stock, join_await_attempts}
use team_10_queue_serivce.Service.Join.{
  Joined, answer_existing, answer_found, check_idempotency, sleep, unless_joined,
  await_concurrent_join, after_restore, or_restore, grant_right, make_offer, settle_without_units,
  process_allocation, enter_with, enter, initial_row, new_membership, after_release_slot,
  or_release_slot, enter_slot, join_claimed, join_positive, join_queue,
}
use team_10_queue_serivce.Oversell.{Unsaved, IsWithin, units_at, NoOversell}
use team_10_queue_serivce.Oversell.Calls.{
  Leaves-read, get_membership-Triple, upsert-Triple, Leaves-init_stock, Leaves-save_stock,
}
use team_10_queue_serivce.Oversell.Pool.{Leaves-restore, try_allocate-Triple}
use team_10_queue_serivce.Oversell.Steps.{Leaves-with_claim, issue_right-Triple}
use team_10_queue_serivce.Oversell.Neutral.{
  Leaves-enqueue, Leaves-occupy, Leaves-release_slot, Leaves-sync, Leaves-when, Leaves-claim,
  Leaves-release_claim,
}
use team_10_queue_serivce.Oversell.Advance.{from_more, forget_units, forget_and_raise}

module _ (total : Unsaved) (p : ℕ) where
  abbrev Keeps : {A : Type 0} → M A → Type 0
  Keeps m = Leaves (NoOversell total p 0) m (NoOversell total p 0)

  pub Keeps-get_right : (t : ℕ) → Leaves (NoOversell total p 0) (get_right t) (NoOversell total p 0)
  unfolding get_right
  Keeps-get_right t = Leaves-read total p _

  Keeps-answer :
      (status : MembershipStatus) (t : Option ℕ) (m : QueueMembership)
      → Keeps (answer_existing status t m)
  Keeps-answer right_active (some t) m =
      Triple-bind _ _ (Keeps-get_right t) (λ r. forget_units total p _)
  Keeps-answer queued t m = forget_units total p _
  Keeps-answer offer_pending t m = forget_units total p _
  Keeps-answer _ t m = forget_units total p _

  Keeps-check : (q u : ℕ) → Keeps (check_idempotency q u)
  unfolding check_idempotency
  Keeps-check q u =
      Triple-attempt (get_membership q u) answer_found (get_membership-Triple total p q u)
        (λ m. Triple-before _ (λ st h. h.0) (Keeps-answer m.status m.current_token m))
        λ e.
          Triple-if (is_token_not_found e) _ _ (λ _. forget_units total p _)
            (λ _. forget_and_raise total p e)

  Keeps-unless :
      (existing : Option Joined) (m : M Joined) → Keeps m → Keeps (unless_joined existing m)
  Keeps-unless (some j) m h = forget_units total p j
  Keeps-unless none m h = h

  -- What is under way for product `q` goes back if the durable write fails.
  Triple-or_restore :
      {A : Type 0} {R : A → Store → Type 0} (q n : ℕ) (m : M A)
      → Triple (NoOversell total p (units_at q n p)) m R (NoOversell total p (units_at q n p))
      → Triple (NoOversell total p (units_at q n p)) (or_restore q n m) R (NoOversell total p 0)
  unfolding or_restore
  Triple-or_restore q n m h =
      Triple-attempt m (after_restore q n) h (λ a. Triple-pure a (λ st k. k))
        λ e.
          Triple-attempt (restore_available_units q n) (λ undone. raise (with_rollback e undone))
            (Leaves-restore total p q n) (λ _. forget_and_raise total p _)
            (λ _. forget_and_raise total p _)

  module _ (s : QueueService) (m : QueueMembership) where
    Leaves-grant_right :
        (n : ℕ)
        → Leaves
            (NoOversell total p (units_at m.product_id n p))
            (grant_right s m n)
            (NoOversell total p 0)
    unfolding grant_right
    Leaves-grant_right n = Triple-clock _ λ now. Triple-uuid _ λ token.
        Triple-bind _ _
          (Triple-or_restore m.product_id n _ (issue_right-Triple total p _ _ _ (ground arith)))
          λ _. Triple-bind _ _ (Leaves-sync total p s _ _) (λ _. forget_units total p _)

    Leaves-make_offer :
        (n : ℕ)
        → Leaves
            (NoOversell total p (units_at m.product_id n p))
            (make_offer s m n)
            (NoOversell total p 0)
    unfolding make_offer
    Leaves-make_offer n = Triple-clock _ λ now.
        Triple-bind _ _
          (Triple-or_restore m.product_id n _ (upsert-Triple total p _ _ (ground arith)))
          λ _. Triple-bind _ _ (Leaves-sync total p s _ _) (λ _. forget_units total p _)

    Keeps-settle :
        (status : MembershipStatus)
        → status ≢ offer_pending
        → Keeps (settle_without_units s m status)
    unfolding settle_without_units
    Keeps-settle status no_offer = Triple-clock _ λ now.
        Triple-bind _ _ (upsert-Triple total p 0 _ (ground (arith, no_offer))) λ _.
          Triple-bind _ _
            (Leaves-when total p (is_queued status) _
              (Leaves-enqueue total p m.product_id m.user_id))
            λ _. Triple-bind _ _ (Leaves-sync total p s _ _) (λ _. forget_units total p _)

    Leaves-process_allocation :
        (a : Allocation)
        → Leaves
            (NoOversell total p (units_at m.product_id (a.allocated + a.available) p))
            (process_allocation s m a)
            (NoOversell total p 0)
    unfolding process_allocation
    Leaves-process_allocation a =
        Triple-if (a.allocated == m.quantity) _ _
          (λ e. from_more total p _ (ground arith) (Leaves-grant_right a.allocated))
          λ e.
            Triple-if (ltb 0 a.available) _ _
              (λ f. from_more total p _ (ground arith) (Leaves-make_offer a.available))
              (λ f. from_more total p _ (omega arith) (Keeps-settle _ (ground arith)))

  module _ (s : QueueService) (q u quantity : ℕ)
      (same : q ≡ p → IsWithin total (s.initial_stock q)) where
    Triple-initial_stock :
        Triple
          (NoOversell total p 0)
          (get_initial_stock s q)
          (λ t st. NoOversell total p 0 st × (t ≡ s.initial_stock q))
          (NoOversell total p 0)
    unfolding get_initial_stock
    Triple-initial_stock = Triple-call _ (λ now st h. (h, refl)) (λ st h. h)

    Keeps-enter_with : (t : ℕ) → (q ≡ p → IsWithin total t) → Keeps (enter_with s q u quantity t)
    unfolding enter_with
    Keeps-enter_with t e = Triple-bind _ _ (Leaves-init_stock total p q t e) λ _.
        Triple-clock _ λ stock_time.
          Triple-bind _ _ (Leaves-save_stock total p (initial_row q t stock_time) e) λ _.
            Triple-bind _ _ (try_allocate-Triple total p q quantity) λ a.
              Triple-clock _
                λ created. Leaves-process_allocation s (new_membership q u quantity created) a

    Keeps-enter : Keeps (enter s q u quantity)
    unfolding enter
    Keeps-enter =
        Triple-bind (get_initial_stock s q) (enter_with s q u quantity) Triple-initial_stock λ t.
          Triple-given _ (λ h. Keeps-enter_with t (λ e. subst (IsWithin total) (sym h) (same e)))

    Keeps-enter_slot : (slot : Bool × Bool) → Keeps (enter_slot s q u quantity slot)
    unfolding or_release_slot
    Keeps-enter_slot (granted, fresh) =
        Triple-if granted _ _
          (λ _.
            Triple-attempt (enter s q u quantity) (after_release_slot fresh q u) Keeps-enter
              (forget_units total p)
              λ e.
                Triple-attempt (when fresh (release_queue_slot u q)) (λ _. raise e)
                  (Leaves-when total p fresh _ (Leaves-release_slot total p u q))
                  (λ _. forget_and_raise total p e) (λ _. forget_and_raise total p e))
          (λ _. forget_and_raise total p _)

    Keeps-join_claimed : Keeps (join_claimed s q u quantity)
    unfolding join_claimed
    Keeps-join_claimed = Triple-bind _ _ (Keeps-check q u) λ existing.
        Keeps-unless existing _
          (Triple-bind _ _ (Leaves-occupy total p u q s.max_active_queues) Keeps-enter_slot)

  -- What a waiting request meets, if the others keep the invariant too.
  abbrev pub OthersKeep : QueueService → Type 0
  OthersKeep s =
      (n : ℕ) (st : Store) → NoOversell total p 0 st → NoOversell total p 0 (s.others n st)

  pub Keeps-sleep :
      (s : QueueService) (n : ℕ)
      → OthersKeep s
      → Leaves (NoOversell total p 0) (sleep s n) (NoOversell total p 0)
  Keeps-sleep s n keep =
      Triple-if (s.is_cancelled n) _ _ (λ _. forget_and_raise total p cancelled)
        (λ _. record { from = λ w h. keep n w.store h })

  Keeps-await :
      (left : ℕ) (s : QueueService) (q u : ℕ)
      → OthersKeep s
      → Keeps (await_concurrent_join left s q u)
  unfolding await_concurrent_join
  Keeps-await zero s q u keep = forget_and_raise total p concurrent_join
  Keeps-await (suc left) s q u keep =
      let rest = Keeps-await left s q u keep in
      Triple-bind _ _ (Keeps-check q u)
        λ existing. Keeps-unless existing _ (Triple-bind _ _ (Keeps-sleep s left keep) (λ _. rest))

  Keeps-join_positive :
      (s : QueueService) (q u n : ℕ)
      → (q ≡ p → IsWithin total (s.initial_stock q))
      → OthersKeep s
      → Keeps (join_positive s q u n)
  unfolding join_positive
  Keeps-join_positive s q u n same keep = Triple-bind _ _ (Keeps-check q u) λ existing.
      Keeps-unless existing _ (
        Leaves-with_claim q u _ _ (Leaves-claim total p q u) (Leaves-release_claim total p q u)
          (λ st h. h) (Keeps-await join_await_attempts s q u keep)
          (Keeps-join_claimed s q u n same))

  pub Leaves-join_queue :
      (s : QueueService) (q u : ℕ) (quantity : ℤ)
      → (q ≡ p → IsWithin total (s.initial_stock q))
      → OthersKeep s
      → Leaves (NoOversell total p 0) (join_queue s q u quantity) (NoOversell total p 0)
  unfolding join_queue
  Leaves-join_queue s q u (pos zero) same keep = forget_and_raise total p quantity_invalid
  Leaves-join_queue s q u (pos (suc n)) same keep = Keeps-join_positive s q u (suc n) same keep
  Leaves-join_queue s q u (negsuc n) same keep = forget_and_raise total p quantity_invalid
