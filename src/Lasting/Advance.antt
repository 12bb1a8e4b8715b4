-- ===== src/Lasting/Advance.antt =====
-- syncCacheState, AdvanceQueue and ProcessPayment keep what lasts of the rights.
use team_10_queue_serivce.Base.{
  ℕ, zero, suc, refl, Bool, true, false, ◌||◌, List, Option, none, some, ltb, is_some,
}
use team_10_queue_serivce.Models.Status.{
  MembershipStatus, right_active, offer_pending, sold_out, is_queued,
}
use team_10_queue_serivce.Models.{QueueMembership, Right, concurrent_join}
use team_10_queue_serivce.Models.Result.{with_rollback}
use team_10_queue_serivce.Redis.Scripts.{Popped}
use team_10_queue_serivce.Redis.Repo.{
  pop_and_allocate, restore_available_units, requeue, get_membership, claim_membership,
  release_membership_claim, set_right, add_to_expiry_timer, set_membership, publish_event,
  commit_purchase, mark_purchased_if_current_token,
}
use team_10_queue_serivce.World.{M, pure, raise}
use team_10_queue_serivce.World.Triple.{
  Triple-bind, Triple-if, Triple-clock, Triple-uuid, Triple-attempt, Leaves-finally, Leaves-collect,
}
use team_10_queue_serivce.Service.Config.{QueueService}
use team_10_queue_serivce.Service.Sync.{cache_right, sync_cache_state}
use team_10_queue_serivce.Service.Advance.{
  rollback_advance, after_rollback, or_rollback, advance_right, advance_offer, advance_sold_out,
  advance_by_status, apply_advance_step, advance_claimed, is_served, advance_round, advance_loop,
  advance_queue, rounds_for,
}
use team_10_queue_serivce.Service.Payment.{settle_payment, process_payment}
use team_10_queue_serivce.Lasting.{IsLasting, Keeps}
use team_10_queue_serivce.Lasting.Calls.{
  Keeps-call, Keeps-pure, Keeps-raise, Keeps-when, Keeps-upsert, Keeps-issue_right, Keeps-use_right,
}

module _ (K : List Right → Type 0) where
  pub Keeps-set_right : (r : Right) → Keeps K (set_right r)
  unfolding set_right
  Keeps-set_right r = Keeps-call K _ (λ now st. refl)

  Keeps-cache_right : (o : Option Right) → Keeps K (cache_right o)
  Keeps-cache_right none = Keeps-pure K tt
  Keeps-cache_right (some r) = Keeps-set_right r

  pub Keeps-add_to_expiry_timer : (p u t : ℕ) → Keeps K (add_to_expiry_timer p u t)
  unfolding add_to_expiry_timer
  Keeps-add_to_expiry_timer p u t = Keeps-call K _ (λ now st. refl)

  pub Keeps-get_membership : (p u : ℕ) → Keeps K (get_membership p u)
  unfolding get_membership
  Keeps-get_membership p u = Keeps-call K _ (λ now st. refl)

  pub Keeps-restore : (p n : ℕ) → Keeps K (restore_available_units p n)
  unfolding restore_available_units
  Keeps-restore p n = Keeps-call K _ (λ now st. refl)

  Keeps-publish : (p u : ℕ) → Keeps K (publish_event p u)
  unfolding publish_event
  Keeps-publish p u = Keeps-call K _ (λ now st. refl)

  pub Keeps-sync :
      (s : QueueService) (m : QueueMembership) (o : Option Right) → Keeps K (sync_cache_state s m o)
  unfolding sync_cache_state set_membership
  Keeps-sync s m o = Triple-bind _ _ (Keeps-cache_right o) λ _.
      Triple-bind _ _
        (Keeps-when K (is_queued m.status || is_some m.expires_at) _
          (Triple-clock _ λ now. Keeps-add_to_expiry_timer _ _ _))
        λ _. Triple-bind _ _ (Keeps-call K _ (λ now st. refl)) λ _.
          Triple-attempt (publish_event m.product_id m.user_id) (λ published. pure tt)
            (Keeps-publish m.product_id m.user_id) (λ _. Keeps-pure K tt) (λ _. Keeps-pure K tt)

  Keeps-rollback : (p u n score : ℕ) → Keeps K (rollback_advance p u n score)
  unfolding rollback_advance requeue
  Keeps-rollback p u n score =
      Leaves-collect _ _ (Keeps-when K (ltb 0 n) _ (Keeps-restore p n))
        (Keeps-call K _ (λ now st. refl))

  Keeps-or_rollback :
      {A : Type 0} (p u n score : ℕ) (m : M A) → Keeps K m → Keeps K (or_rollback p u n score m)
  unfolding or_rollback
  Keeps-or_rollback p u n score m h =
      Triple-attempt m (after_rollback p u n score) h (λ a. Keeps-pure K a)
        λ e.
          Triple-attempt (rollback_advance p u n score) (λ undone. raise (with_rollback e undone))
            (Keeps-rollback p u n score) (λ _. Keeps-raise K _) (λ _. Keeps-raise K _)

  module _ (lasts : IsLasting K) (s : QueueService) (p : ℕ) where
    module _ (r : Popped) where
      Keeps-by_status :
          (status : MembershipStatus) (m : QueueMembership) (now : ℕ)
          → Keeps K (advance_by_status status s p r m now)
      unfolding advance_right advance_offer advance_sold_out
      Keeps-by_status right_active m now = Triple-uuid _ λ token.
          Triple-bind _ _ (Keeps-or_rollback _ _ _ _ _ (Keeps-issue_right K lasts _ _))
            (λ _. Keeps-sync s _ _)
      Keeps-by_status offer_pending m now =
          Triple-bind _ _ (Keeps-or_rollback _ _ _ _ _ (Keeps-upsert K lasts _))
            (λ _. Keeps-sync s _ _)
      Keeps-by_status sold_out m now =
          Triple-bind _ _ (Keeps-or_rollback _ _ _ _ _ (Keeps-upsert K lasts _))
            (λ _. Keeps-sync s _ _)
      Keeps-by_status _ m now = Keeps-pure K tt

      Keeps-apply_step : Keeps K (apply_advance_step s p r)
      unfolding apply_advance_step
      Keeps-apply_step =
          Triple-bind _ _ (Keeps-or_rollback _ _ _ _ _ (Keeps-get_membership p r.user_id))
            λ m. Triple-clock _ (λ now. Keeps-by_status r.status m now)

      Keeps-advance_claimed : Keeps K (advance_claimed s p r)
      unfolding advance_claimed claim_membership release_membership_claim
      Keeps-advance_claimed = Triple-uuid _ λ owner.
          Triple-bind _ _
            (Keeps-or_rollback _ _ _ _ _ (
              Triple-bind _ _ (Keeps-call K _ (λ now st. refl)) λ won.
                Triple-if won _ _ (λ e. Keeps-pure K tt) (λ e. Keeps-raise K concurrent_join)))
            (λ _. Leaves-finally _ _ Keeps-apply_step (Keeps-call K _ (λ now st. refl)))

    Keeps-round :
        (rest : M Bool) (popped : Option Popped)
        → Keeps K rest
        → Keeps K (advance_round rest s p popped)
    Keeps-round rest none h = Keeps-pure K true
    Keeps-round rest (some r) h =
        Triple-if (is_queued r.status) _ _ (λ e. Keeps-pure K true)
          λ e.
            Triple-if (is_served r.status) _ _
              (λ f. Triple-bind _ _ (Keeps-advance_claimed r) (λ _. h)) (λ f. h)

    Keeps-loop : (rounds : ℕ) → Keeps K (advance_loop rounds s p)
    unfolding advance_loop pop_and_allocate
    Keeps-loop zero = Keeps-pure K false
    Keeps-loop (suc rounds) =
        let rest = Keeps-loop rounds in
        Triple-bind _ _ (Keeps-call K _ (λ now st. refl))
          (λ popped. Keeps-round (advance_loop rounds s p) popped rest)

    pub Keeps-advance_queue : Keeps K (advance_queue s p)
    unfolding advance_queue
    Keeps-advance_queue = record {
      from = λ w h. (Triple-bind _ _ (Keeps-loop (rounds_for p w)) (λ _. Keeps-pure K tt)).from w h;
    }

  module _ (lasts : IsLasting K) (s : QueueService) where
    pub Keeps-settle_payment :
        (r : Right) (transitioned : Bool) (now : ℕ) → Keeps K (settle_payment s r transitioned now)
    unfolding commit_purchase mark_purchased_if_current_token
    Keeps-settle_payment r transitioned now =
        Leaves-collect _ _ (Keeps-when K transitioned _ (Keeps-call K _ (λ now st. refl))) (
          Leaves-collect _ _ (Keeps-set_right r) (
            Leaves-collect _ _
              (Triple-bind _ _ (Keeps-call K _ (λ now st. refl)) (λ _. Keeps-pure K tt))
              (Keeps-advance_queue lasts s r.product_id)))

    pub Keeps-process_payment : (token order : ℕ) → Keeps K (process_payment s token order)
    unfolding process_payment
    Keeps-process_payment token order = Triple-clock _ λ now.
        Triple-bind _ _ (Keeps-use_right K lasts token order now)
          λ (r, transitioned). Keeps-settle_payment r transitioned now
