-- ===== src/Lasting/Join.antt =====
-- JoinQueue and AcceptOffer keep what lasts of the rights.
use team_10_queue_serivce.Base.{ℕ, zero, suc, ◌-◌, refl, Bool, List, Option, none, some, ltb, ◌==◌}
use team_10_queue_serivce.Base.Int.{ℤ, pos, negsuc}
use team_10_queue_serivce.Models.Status.{
  MembershipStatus, queued, right_active, offer_pending, is_queued, is_offer_pending,
}
use team_10_queue_serivce.Models.{
  QueueMembership, Right, quantity_invalid, quantity_exceeded, invalid_status, concurrent_join,
  cancelled, is_token_not_found, token_expired,
}
use team_10_queue_serivce.Models.Result.{with_rollback}
use team_10_queue_serivce.Redis.Scripts.{Allocation}
use team_10_queue_serivce.Redis.Repo.{
  get_right, get_membership, init_stock, try_allocate, enqueue, try_occupy_queue_slot,
  release_queue_slot, restore_available_units,
}
use team_10_queue_serivce.World.{M, raise, when}
use team_10_queue_serivce.World.Triple.{
  Triple-bind, Triple-if, Triple-clock, Triple-uuid, Triple-attempt,
}
use team_10_queue_serivce.Service.Config.{QueueService, get_initial_stock, join_await_attempts}
use team_10_queue_serivce.Service.Join.{
  Joined, answer_existing, answer_found, check_idempotency, sleep, unless_joined,
  await_concurrent_join, after_restore, or_restore, grant_right, make_offer, settle_without_units,
  process_allocation, enter_with, enter, new_membership, after_release_slot, or_release_slot,
  enter_slot, join_claimed, join_positive, join_queue,
}
use team_10_queue_serivce.Service.Leave.{refuse_expired}
use team_10_queue_serivce.Service.Offer.{
  settle_accept, accept_available, accept_claimed, await_by_status, await_concurrent_accept,
  accept_positive, accept_offer,
}
use team_10_queue_serivce.Lasting.{IsLasting, Keeps, OthersKeep}
use team_10_queue_serivce.Lasting.Calls.{
  Keeps-call, Keeps-pure, Keeps-raise, Keeps-when, Keeps-save_stock, Keeps-upsert,
  Keeps-issue_right, Keeps-with_claim,
}
use team_10_queue_serivce.Lasting.Advance.{
  Keeps-get_membership, Keeps-restore, Keeps-sync, Keeps-advance_queue,
}

module _ (K : List Right → Type 0) where
  Keeps-get_right : (t : ℕ) → Keeps K (get_right t)
  unfolding get_right
  Keeps-get_right t = Keeps-call K _ (λ now st. refl)

  Keeps-answer :
      (status : MembershipStatus) (t : Option ℕ) (m : QueueMembership)
      → Keeps K (answer_existing status t m)
  Keeps-answer right_active (some t) m = Triple-bind _ _ (Keeps-get_right t) (λ r. Keeps-pure K _)
  Keeps-answer queued t m = Keeps-pure K _
  Keeps-answer offer_pending t m = Keeps-pure K _
  Keeps-answer _ t m = Keeps-pure K _

  Keeps-check : (p u : ℕ) → Keeps K (check_idempotency p u)
  unfolding check_idempotency
  Keeps-check p u =
      Triple-attempt (get_membership p u) answer_found (Keeps-get_membership K p u)
        (λ m. Keeps-answer m.status m.current_token m)
        λ e. Triple-if (is_token_not_found e) _ _ (λ _. Keeps-pure K _) (λ _. Keeps-raise K e)

  Keeps-unless :
      (existing : Option Joined) (m : M Joined) → Keeps K m → Keeps K (unless_joined existing m)
  Keeps-unless (some j) m h = Keeps-pure K j
  Keeps-unless none m h = h

  Keeps-or_restore : {A : Type 0} (p n : ℕ) (m : M A) → Keeps K m → Keeps K (or_restore p n m)
  unfolding or_restore
  Keeps-or_restore p n m h =
      Triple-attempt m (after_restore p n) h (λ a. Keeps-pure K a)
        λ e.
          Triple-attempt (restore_available_units p n) (λ undone. raise (with_rollback e undone))
            (Keeps-restore K p n) (λ _. Keeps-raise K _) (λ _. Keeps-raise K _)

  pub Keeps-refuse_expired : (t : Option ℕ) → Keeps K (refuse_expired t)
  Keeps-refuse_expired none = Keeps-pure K tt
  Keeps-refuse_expired (some t) =
      Triple-clock _
        λ now. Triple-if (ltb t now) _ _ (λ _. Keeps-raise K token_expired) (λ _. Keeps-pure K tt)

  module _ (s : QueueService) (others : OthersKeep K s) where
    Keeps-sleep : (n : ℕ) → Keeps K (sleep s n)
    Keeps-sleep n =
        Triple-if (s.is_cancelled n) _ _ (λ _. Keeps-raise K cancelled)
          (λ _. record { from = λ w h. others n w.store h })

    Keeps-await : (left p u : ℕ) → Keeps K (await_concurrent_join left s p u)
    unfolding await_concurrent_join
    Keeps-await zero p u = Keeps-raise K concurrent_join
    Keeps-await (suc left) p u =
        let rest = Keeps-await left p u in
        Triple-bind _ _ (Keeps-check p u)
          λ existing. Keeps-unless existing _ (Triple-bind _ _ (Keeps-sleep left) (λ _. rest))

    Keeps-await_accept : (left p u : ℕ) → Keeps K (await_concurrent_accept left s p u)
    unfolding await_concurrent_accept
    Keeps-await_accept zero p u = Keeps-raise K concurrent_join
    Keeps-await_accept (suc left) p u =
        let rest = Keeps-await_accept left p u in
        Triple-bind _ _ (Keeps-get_membership K p u)
          λ m. by_status m.status m.current_token _ (Triple-bind _ _ (Keeps-sleep left) (λ _. rest))
      where
        by_status :
            (status : MembershipStatus) (t : Option ℕ) (rest : M Right)
            → Keeps K rest
            → Keeps K (await_by_status status t rest)
        by_status right_active (some t) rest h = Keeps-get_right t
        by_status offer_pending t rest h = h
        by_status _ t rest h = Keeps-raise K invalid_status

  module _ (lasts : IsLasting K) (s : QueueService) where
    Keeps-grant : (m : QueueMembership) (n : ℕ) → Keeps K (grant_right s m n)
    unfolding grant_right
    Keeps-grant m n = Triple-clock _ λ now. Triple-uuid _ λ token.
        Triple-bind _ _ (Keeps-or_restore _ _ _ (Keeps-issue_right K lasts _ _))
          λ _. Triple-bind _ _ (Keeps-sync K s _ _) (λ _. Keeps-pure K _)

    Keeps-offer : (m : QueueMembership) (n : ℕ) → Keeps K (make_offer s m n)
    unfolding make_offer
    Keeps-offer m n = Triple-clock _ λ now.
        Triple-bind _ _ (Keeps-or_restore _ _ _ (Keeps-upsert K lasts _))
          λ _. Triple-bind _ _ (Keeps-sync K s _ _) (λ _. Keeps-pure K _)

    Keeps-settle :
        (m : QueueMembership) (status : MembershipStatus)
        → Keeps K (settle_without_units s m status)
    unfolding settle_without_units enqueue
    Keeps-settle m status = Triple-clock _ λ now. Triple-bind _ _ (Keeps-upsert K lasts _) λ _.
        Triple-bind _ _ (Keeps-when K (is_queued status) _ (Keeps-call K _ (λ now st. refl)))
          λ _. Triple-bind _ _ (Keeps-sync K s _ _) (λ _. Keeps-pure K _)

    Keeps-process_allocation :
        (m : QueueMembership) (a : Allocation) → Keeps K (process_allocation s m a)
    unfolding process_allocation
    Keeps-process_allocation m a =
        Triple-if (a.allocated == m.quantity) _ _ (λ _. Keeps-grant m a.allocated)
          λ _.
            Triple-if (ltb 0 a.available) _ _ (λ _. Keeps-offer m a.available)
              (λ _. Keeps-settle m _)

    module _ (p u quantity : ℕ) where
      Keeps-enter : Keeps K (enter s p u quantity)
      unfolding enter enter_with get_initial_stock init_stock try_allocate
      Keeps-enter = Triple-bind _ _ (Keeps-call K _ (λ now st. refl)) λ total.
          Triple-bind _ _ (Keeps-call K _ (λ now st. refl)) λ _. Triple-clock _ λ stock_time.
            Triple-bind _ _ (Keeps-save_stock K lasts _) λ _.
              Triple-bind _ _ (Keeps-call K _ (λ now st. refl)) λ a.
                Triple-clock _
                  λ created. Keeps-process_allocation (new_membership p u quantity created) a

      Keeps-release_slot : (fresh : Bool) → Keeps K (when fresh (release_queue_slot u p))
      unfolding release_queue_slot
      Keeps-release_slot fresh = Keeps-when K fresh _ (Keeps-call K _ (λ now st. refl))

      Keeps-enter_slot : (slot : Bool × Bool) → Keeps K (enter_slot s p u quantity slot)
      unfolding or_release_slot
      Keeps-enter_slot (granted, fresh) =
          Triple-if granted _ _
            (λ _.
              Triple-attempt (enter s p u quantity) (after_release_slot fresh p u) Keeps-enter
                (λ a. Keeps-pure K a)
                λ e.
                  Triple-attempt (when fresh (release_queue_slot u p)) (λ _. raise e)
                    (Keeps-release_slot fresh) (λ _. Keeps-raise K e) (λ _. Keeps-raise K e))
            (λ _. Keeps-raise K _)

      Keeps-occupy : Keeps K (try_occupy_queue_slot u p s.max_active_queues)
      unfolding try_occupy_queue_slot
      Keeps-occupy = Keeps-call K _ (λ now st. refl)

      Keeps-join_claimed : Keeps K (join_claimed s p u quantity)
      unfolding join_claimed
      Keeps-join_claimed =
          Triple-bind _ _ (Keeps-check p u)
            λ existing. Keeps-unless existing _ (Triple-bind _ _ Keeps-occupy Keeps-enter_slot)

      Keeps-settle_accept :
          (m : QueueMembership) (n returned : ℕ) → Keeps K (settle_accept s m n returned)
      unfolding settle_accept
      Keeps-settle_accept m n returned = Triple-clock _ λ now. Triple-uuid _ λ token.
          Triple-bind _ _ (Keeps-issue_right K lasts _ _) λ _.
            Triple-bind _ _ (Keeps-sync K s _ _) λ _.
              Triple-if (ltb 0 returned) _ _
                (λ _.
                  Triple-bind _ _
                    (Triple-bind _ _ (Keeps-restore K m.product_id returned)
                      (λ _. Keeps-advance_queue K lasts s m.product_id))
                    (λ _. Keeps-pure K _))
                (λ _. Keeps-pure K _)

      Keeps-available :
          (available : Option ℕ) (m : QueueMembership)
          → Keeps K (accept_available available s m quantity)
      Keeps-available none m = Keeps-raise K invalid_status
      Keeps-available (some n) m =
          Triple-if (ltb n quantity) _ _ (λ _. Keeps-raise K quantity_exceeded)
            (λ _. Keeps-settle_accept m quantity (n - quantity))

      Keeps-accept_claimed : Keeps K (accept_claimed s p u quantity)
      unfolding accept_claimed
      Keeps-accept_claimed = Triple-bind _ _ (Keeps-get_membership K p u) λ m.
          Triple-bind _ _ (Keeps-refuse_expired m.expires_at) λ _.
            Triple-if (is_offer_pending m.status) _ _ (λ _. Keeps-available m.available_quantity m)
              (λ _. Keeps-raise K invalid_status)

    module _ (others : OthersKeep K s) (p u : ℕ) where
      pub Keeps-join_queue : (quantity : ℤ) → Keeps K (join_queue s p u quantity)
      unfolding join_queue join_positive
      Keeps-join_queue (pos zero) = Keeps-raise K quantity_invalid
      Keeps-join_queue (pos (suc n)) = Triple-bind _ _ (Keeps-check p u) λ existing.
          Keeps-unless existing _ (
            Keeps-with_claim K p u _ _ (Keeps-await s others join_await_attempts p u)
              (Keeps-join_claimed p u (suc n)))
      Keeps-join_queue (negsuc n) = Keeps-raise K quantity_invalid

      pub Keeps-accept_offer : (quantity : ℤ) → Keeps K (accept_offer s p u quantity)
      unfolding accept_offer accept_positive
      Keeps-accept_offer (pos zero) = Keeps-raise K quantity_invalid
      Keeps-accept_offer (pos (suc n)) =
          Keeps-with_claim K p u _ _ (Keeps-await_accept s others join_await_attempts p u)
            (Keeps-accept_claimed p u (suc n))
      Keeps-accept_offer (negsuc n) = Keeps-raise K quantity_invalid
