-- ===== src/Oversell/Advance.antt =====
-- AdvanceQueue never promises a unit twice, whichever of its calls fail.
use team_10_queue_serivce.Base.{
  ℕ, zero, suc, ◌+◌, ◌≤◌, ◌≡◌, true, false, Option, none, some, arith, ltb,
}
use team_10_queue_serivce.Models.Status.{
  MembershipStatus, right_active, offer_pending, sold_out, is_queued,
}
use team_10_queue_serivce.Models.{Error, QueueMembership, concurrent_join}
use team_10_queue_serivce.Models.Result.{with_rollback}
use team_10_queue_serivce.Redis.Scripts.{Popped}
use team_10_queue_serivce.World.{Store, M, pure, raise}
use team_10_queue_serivce.World.Triple.{
  Triple, Leaves, Triple-pure, Triple-raise, Triple-bind, Triple-if, Triple-before, Triple-clock,
  Triple-uuid, Triple-attempt, Leaves-finally, Leaves-collect,
}
use team_10_queue_serivce.Service.Config.{QueueService}
use team_10_queue_serivce.Service.Advance.{
  rollback_advance, after_rollback, or_rollback, advance_right, advance_offer, advance_sold_out,
  advance_by_status, apply_advance_step, advance_claimed, is_served, advance_round, advance_loop,
  advance_queue, rounds_for,
}
use team_10_queue_serivce.Oversell.{Unsaved, units_at, NoOversell}
use team_10_queue_serivce.Oversell.Calls.{
  NoOversell-mono, get_membership-Triple, upsert-Triple, given_key,
}
use team_10_queue_serivce.Oversell.Pool.{Leaves-restore, pop_and_allocate-Triple, popped_units}
use team_10_queue_serivce.Oversell.Steps.{issue_right-Triple}
use team_10_queue_serivce.Oversell.Neutral.{
  Leaves-requeue, Leaves-claim, Leaves-release_claim, Leaves-sync,
}

module _ (total : Unsaved) (p : ℕ) where
  -- Fewer units under way before the action.
  pub from_more :
      {A : Type 0} {m n : ℕ} {R : A → Store → Type 0} {E : Store → Type 0} (act : M A)
      → m ≤ n
      → Triple (NoOversell total p m) act R E
      → Triple (NoOversell total p n) act R E
  from_more act le = Triple-before act (λ st h. NoOversell-mono total p st le h)

  pub forget_units :
      {A : Type 0} {n : ℕ} (a : A) → Leaves (NoOversell total p n) (pure a) (NoOversell total p 0)
  forget_units a = Triple-pure a (λ st h. NoOversell-mono total p st (omega arith) h)

  pub forget_and_raise :
      {A : Type 0} {n : ℕ} {R : A → Store → Type 0} (e : Error)
      → Triple (NoOversell total p n) (raise e) R (NoOversell total p 0)
  forget_and_raise e = Triple-raise e (λ st h. NoOversell-mono total p st (omega arith) h)

  Leaves-rollback :
      (q u n score : ℕ)
      → Leaves
          (NoOversell total p (units_at q n p))
          (rollback_advance q u n score)
          (NoOversell total p 0)
  unfolding rollback_advance
  Leaves-rollback q u n score =
      Leaves-collect _ _
        (Triple-if (ltb 0 n) _ _ (λ e. Leaves-restore total p q n) (λ e. forget_units tt))
        (Leaves-requeue total p q u score)

  -- What a failed step had under way is given back.
  Triple-or_rollback :
      {A : Type 0} {R : A → Store → Type 0} (q u n score : ℕ) (m : M A)
      → Triple (NoOversell total p (units_at q n p)) m R (NoOversell total p (units_at q n p))
      → Triple
          (NoOversell total p (units_at q n p))
          (or_rollback q u n score m)
          R
          (NoOversell total p 0)
  unfolding or_rollback
  Triple-or_rollback q u n score m h =
      Triple-attempt m (after_rollback q u n score) h (λ a. Triple-pure a (λ st k. k))
        λ e.
          Triple-attempt (rollback_advance q u n score) (λ undone. raise (with_rollback e undone))
            (Leaves-rollback q u n score) (λ _. forget_and_raise _) (λ _. forget_and_raise _)

  module _ (s : QueueService) (q : ℕ) (r : Popped) (m : QueueMembership) (e : m.product_id ≡ q)
      (now : ℕ) where
    Leaves-advance_right :
        Leaves
          (NoOversell total p (units_at q (r.allocated + r.available) p))
          (advance_right s q r m now)
          (NoOversell total p 0)
    unfolding advance_right
    Leaves-advance_right = from_more _ (ground arith) (
        Triple-uuid _ λ token.
          Triple-bind _ _
            (Triple-or_rollback q r.user_id r.allocated r.score _
              (issue_right-Triple total p _ _ _ (ground (arith, e))))
            (λ _. Leaves-sync total p s _ _))

    Leaves-advance_offer :
        Leaves
          (NoOversell total p (units_at q (r.allocated + r.available) p))
          (advance_offer s q r m now)
          (NoOversell total p 0)
    unfolding advance_offer
    Leaves-advance_offer = from_more _ (ground arith) (
        Triple-bind _ _
          (Triple-or_rollback q r.user_id r.available r.score _
            (upsert-Triple total p _ _ (ground (arith, e))))
          (λ _. Leaves-sync total p s _ _))

    Leaves-advance_sold_out :
        Leaves
          (NoOversell total p (units_at q (r.allocated + r.available) p))
          (advance_sold_out s q r m now)
          (NoOversell total p 0)
    unfolding advance_sold_out
    Leaves-advance_sold_out = from_more _ (ground arith) (
        Triple-bind _ _
          (Triple-or_rollback q r.user_id 0 r.score _
            (upsert-Triple total p _ _ (ground (arith, e))))
          (λ _. Leaves-sync total p s _ _))

    Leaves-by_status :
        (status : MembershipStatus)
        → Leaves
            (NoOversell total p (units_at q (r.allocated + r.available) p))
            (advance_by_status status s q r m now)
            (NoOversell total p 0)
    Leaves-by_status right_active = Leaves-advance_right
    Leaves-by_status offer_pending = Leaves-advance_offer
    Leaves-by_status sold_out = Leaves-advance_sold_out
    Leaves-by_status _ = forget_units tt

  Leaves-apply_step :
      (s : QueueService) (q : ℕ) (r : Popped)
      → Leaves
          (NoOversell total p (units_at q (r.allocated + r.available) p))
          (apply_advance_step s q r)
          (NoOversell total p 0)
  unfolding apply_advance_step
  Leaves-apply_step s q r =
      Triple-bind _ _
        (Triple-or_rollback q r.user_id (r.allocated + r.available) r.score _
          (get_membership-Triple total p q r.user_id))
        λ m.
          given_key total p q r.user_id m _
            λ e _. Triple-clock _ (λ now. Leaves-by_status s q r m e now r.status)

  pub Leaves-advance_claimed :
      (s : QueueService) (q : ℕ) (r : Popped)
      → Leaves
          (NoOversell total p (units_at q (r.allocated + r.available) p))
          (advance_claimed s q r)
          (NoOversell total p 0)
  unfolding advance_claimed
  Leaves-advance_claimed s q r = Triple-uuid _ λ owner.
      Triple-bind _ _
        (Triple-or_rollback q r.user_id (r.allocated + r.available) r.score _ (
          Triple-bind _ _ (Leaves-claim total p q r.user_id owner _) λ won.
            Triple-if won _ _ (λ e. Triple-pure tt (λ st h. h))
              (λ e. Triple-raise concurrent_join (λ st h. h))))
        (λ _.
          Leaves-finally _ _ (Leaves-apply_step s q r)
            (Leaves-release_claim total p q r.user_id owner))

  Leaves-advance_loop :
      (s : QueueService) (q rounds : ℕ)
      → Leaves (NoOversell total p 0) (advance_loop rounds s q) (NoOversell total p 0)
  unfolding advance_loop
  Leaves-advance_loop s q zero = Triple-pure false (λ st h. h)
  Leaves-advance_loop s q (suc rounds) =
      let rest = Leaves-advance_loop s q rounds in
      Triple-bind _ _ (pop_and_allocate-Triple total p q) λ popped. by_reply rest popped
    where
      after :
          (r : Popped)
          → Leaves (NoOversell total p 0) (advance_loop rounds s q) (NoOversell total p 0)
          → Leaves
              (NoOversell total p (units_at q (r.allocated + r.available) p))
              (advance_loop rounds s q)
              (NoOversell total p 0)
      after r h = from_more _ (omega arith) h

      by_reply :
          Leaves (NoOversell total p 0) (advance_loop rounds s q) (NoOversell total p 0)
          → (popped : Option Popped)
          → Leaves
              (NoOversell total p (popped_units total p q popped))
              (advance_round (advance_loop rounds s q) s q popped)
              (NoOversell total p 0)
      by_reply h none = forget_units true
      by_reply h (some r) =
          Triple-if (is_queued r.status) _ _ (λ e. forget_units true)
            λ e.
              Triple-if (is_served r.status) _ _
                (λ f. Triple-bind _ _ (Leaves-advance_claimed s q r) (λ _. h)) (λ f. after r h)

  -- Whatever fails, and whoever is at the head, advancing the queue of any product keeps every
  -- product from being promised twice.
  pub Leaves-advance_queue :
      (s : QueueService) (q : ℕ)
      → Leaves (NoOversell total p 0) (advance_queue s q) (NoOversell total p 0)
  unfolding advance_queue
  Leaves-advance_queue s q = record {
    from = λ w h.
        (Triple-bind _ _ (Leaves-advance_loop s q (rounds_for q w)) (λ _. forget_units tt)).from w
          h;
  }
