-- ===== src/Lasting/Leave.antt =====
-- LeaveQueue and DeclineOffer keep what lasts of the rights.
use team_10_queue_serivce.Base.{ℕ, refl, Bool, true, false, List, Option, none, some, ltb}
use team_10_queue_serivce.Models.Status.{
  RightStatus, MembershipStatus, expired, queued, right_active, offer_pending,
}
use team_10_queue_serivce.Models.{QueueMembership, Right, concurrent_join, invalid_status}
use team_10_queue_serivce.Redis.Repo.{remove_from_queue, remove_from_expiry_timer}
use team_10_queue_serivce.World.Triple.{Triple-bind, Triple-if, Triple-clock, Leaves-collect}
use team_10_queue_serivce.Service.Config.{QueueService}
use team_10_queue_serivce.Service.Leave.{
  refresh_settled, return_right, expire_token, expire_active_right, settle_leave, leave_by_status,
  leave_claimed, leave_with, leave_queue, decline_offer,
}
use team_10_queue_serivce.Lasting.{IsLasting, Keeps}
use team_10_queue_serivce.Lasting.Calls.{
  Keeps-call, Keeps-raise, Keeps-when, Keeps-upsert, Keeps-expire_right, Keeps-with_claim,
}
use team_10_queue_serivce.Lasting.Advance.{
  Keeps-set_right, Keeps-get_membership, Keeps-restore, Keeps-sync, Keeps-advance_queue,
}
use team_10_queue_serivce.Lasting.Join.{Keeps-refuse_expired}

module _ (K : List Right → Type 0) (lasts : IsLasting K) (s : QueueService) where
  pub Keeps-remove : (p u : ℕ) → Keeps K (remove_from_queue p u)
  unfolding remove_from_queue
  Keeps-remove p u = Keeps-call K _ (λ now st. refl)

  Keeps-untimed : (p u : ℕ) → Keeps K (remove_from_expiry_timer p u)
  unfolding remove_from_expiry_timer
  Keeps-untimed p u = Keeps-call K _ (λ now st. refl)

  Keeps-refresh_settled :
      (status : RightStatus) (m : QueueMembership) (r : Right)
      → Keeps K (refresh_settled status s m r)
  Keeps-refresh_settled expired m r = Keeps-sync K s m (some r)
  Keeps-refresh_settled _ m r = Keeps-set_right K r

  Keeps-return_right :
      (m final : QueueMembership) (r : Right) (remove_timer : Bool)
      → Keeps K (return_right s m final r remove_timer)
  unfolding return_right
  Keeps-return_right m final r remove_timer = Leaves-collect _ _ (Keeps-sync K s _ _) (
      Leaves-collect _ _ (Keeps-when K remove_timer _ (Keeps-untimed _ _)) (
        Leaves-collect _ _ (Keeps-when K (ltb 0 m.quantity) _ (Keeps-restore K _ _))
          (Keeps-advance_queue K lasts s _)))

  Keeps-expire_token :
      (m : QueueMembership) (remove_timer : Bool) (token : Option ℕ)
      → Keeps K (expire_token s m remove_timer token)
  Keeps-expire_token m remove_timer none = Keeps-raise K invalid_status
  Keeps-expire_token m remove_timer (some token) = Triple-clock _ λ now.
      Triple-bind _ _ (Keeps-expire_right K lasts token _) λ (r, transitioned).
        Triple-if transitioned _ _ (λ _. Keeps-return_right m _ r remove_timer)
          (λ _. Keeps-refresh_settled r.status _ r)

  pub Keeps-expire_active_right :
      (m : QueueMembership) (remove_timer : Bool) → Keeps K (expire_active_right s m remove_timer)
  unfolding expire_active_right
  Keeps-expire_active_right m remove_timer = Keeps-expire_token m remove_timer m.current_token

  Keeps-settle_leave :
      (m : QueueMembership) (returned : ℕ) (from_queue from_timer : Bool)
      → Keeps K (settle_leave s m returned from_queue from_timer)
  unfolding settle_leave
  Keeps-settle_leave m returned from_queue from_timer = Triple-clock _ λ now.
      Triple-bind _ _ (Keeps-upsert K lasts _) λ _. Leaves-collect _ _ (Keeps-sync K s _ _) (
        Leaves-collect _ _ (Keeps-when K from_queue _ (Keeps-remove _ _)) (
          Leaves-collect _ _ (Keeps-when K from_timer _ (Keeps-untimed _ _)) (
            Keeps-when K (ltb 0 returned) _
              (Leaves-collect _ _ (Keeps-restore K _ _) (Keeps-advance_queue K lasts s _)))))

  Keeps-leave_by_status :
      (status : MembershipStatus) (available : Option ℕ) (offer_only : Bool) (m : QueueMembership)
      → Keeps K (leave_by_status status available offer_only s m)
  Keeps-leave_by_status queued available true m = Keeps-raise K invalid_status
  Keeps-leave_by_status queued available false m = Keeps-settle_leave m 0 true false
  Keeps-leave_by_status offer_pending none offer_only m = Keeps-raise K invalid_status
  Keeps-leave_by_status offer_pending (some n) offer_only m = Keeps-settle_leave m n false true
  Keeps-leave_by_status right_active available true m = Keeps-raise K invalid_status
  Keeps-leave_by_status right_active available false m = Keeps-expire_active_right m true
  Keeps-leave_by_status _ available offer_only m = Keeps-raise K invalid_status

  Keeps-leave_with : (p u : ℕ) (offer_only : Bool) → Keeps K (leave_with s p u offer_only)
  unfolding leave_with leave_claimed
  Keeps-leave_with p u offer_only = Keeps-with_claim K p u _ _ (Keeps-raise K concurrent_join) (
      Triple-bind _ _ (Keeps-get_membership K p u) λ m.
        Triple-bind _ _ (Keeps-refuse_expired K m.expires_at)
          λ _. Keeps-leave_by_status m.status m.available_quantity offer_only m)

  pub Keeps-leave_queue : (p u : ℕ) → Keeps K (leave_queue s p u)
  unfolding leave_queue
  Keeps-leave_queue p u = Keeps-leave_with p u false

  pub Keeps-decline_offer : (p u : ℕ) → Keeps K (decline_offer s p u)
  unfolding decline_offer
  Keeps-decline_offer p u = Keeps-leave_with p u true
