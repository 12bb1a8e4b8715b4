-- ===== src/Oversell/Leave.antt =====
-- Leaving a queue, declining an offer and expiring a right never promise a unit twice, whichever of
-- their calls fail, if PostgreSQL backs the cached membership when they begin.
use team_10_queue_serivce.Base.{
  ℕ, ◌≤◌, ◌≡◌, refl, Bool, true, false, Option, none, some, arith, inl, ltb, if◌then◌else◌, ◌∙◌,
}
use team_10_queue_serivce.Models.Status.{
  RightStatus, MembershipStatus, expired, queued, right_active, offer_pending,
}
use team_10_queue_serivce.Models.{QueueMembership, Right, invalid_status, concurrent_join}
use team_10_queue_serivce.Redis.Repo.{restore_available_units}
use team_10_queue_serivce.World.{raise, when}
use team_10_queue_serivce.World.Triple.{
  Triple, Leaves, Triple-raise, Triple-bind, Triple-if, Triple-before, Triple-clock, Triple-given,
  Leaves-collect,
}
use team_10_queue_serivce.Service.Config.{QueueService}
use team_10_queue_serivce.Service.Leave.{
  settled, refresh_settled, return_right, expire_token, expire_active_right, settle_leave,
  leave_by_status, leave_claimed, leave_with,
}
use team_10_queue_serivce.Oversell.{Unsaved, units_at, NoOversell}
use team_10_queue_serivce.Oversell.Pool.{Leaves-restore}
use team_10_queue_serivce.Oversell.Steps.{Leaves-with_claim, expire_right-Triple, freed_units}
use team_10_queue_serivce.Oversell.Neutral.{
  Leaves-sync, Leaves-when, Leaves-set_right, Leaves-remove_timer, Leaves-remove_from_queue,
  Leaves-release_claim,
}
use team_10_queue_serivce.Oversell.Advance.{from_more, forget_units, Leaves-advance_queue}
use team_10_queue_serivce.Oversell.Ready.{
  HoldsOffer, IsBacked, Ready, Ready-NoOversell, Leaves-claim-Ready, get_membership-Triple-Ready,
  SafeWith, Triple-refuse_expired, upsert-settled-Triple,
}

module _ (total : Unsaved) (p : ℕ) (s : QueueService) where
  -- What an ended participation held goes to the pool, if there is any.
  pub Leaves-restore_some :
      (q n : ℕ)
      → Leaves
          (NoOversell total p (units_at q n p))
          (when (ltb 0 n) (restore_available_units q n))
          (NoOversell total p 0)
  Leaves-restore_some q n =
      Triple-if (ltb 0 n) _ _ (λ e. Leaves-restore total p q n) (λ e. forget_units total p tt)

  Leaves-settle_leave :
      (m : QueueMembership) (n : ℕ) (from_queue from_timer : Bool)
      → Triple
          (SafeWith total p (HoldsOffer m n))
          (settle_leave s m n from_queue from_timer)
          (λ _. NoOversell total p 0)
          (NoOversell total p 0)
  unfolding settle_leave
  Leaves-settle_leave m n from_queue from_timer = Triple-clock _ λ now.
      Triple-bind _ _ (upsert-settled-Triple total p now n m) λ _.
        Leaves-collect _ _ (Leaves-sync total p s _ _) (
          Leaves-collect _ _
            (Leaves-when total p from_queue _
              (Leaves-remove_from_queue total p m.product_id m.user_id))
            (Leaves-collect _ _
              (Leaves-when total p from_timer _
                (Leaves-remove_timer total p m.product_id m.user_id))
              (Triple-if (ltb 0 n) _ _
                (λ e.
                  Leaves-collect _ _ (Leaves-restore total p m.product_id n)
                    (Leaves-advance_queue total p s m.product_id))
                (λ e. forget_units total p tt))))

  Leaves-return_right :
      (m final : QueueMembership) (r : Right) (remove_timer : Bool)
      → Leaves
          (NoOversell total p (units_at m.product_id m.quantity p))
          (return_right s m final r remove_timer)
          (NoOversell total p 0)
  unfolding return_right
  Leaves-return_right m final r remove_timer = Leaves-collect _ _ (Leaves-sync total p s _ _) (
      Leaves-collect _ _
        (Leaves-when total p remove_timer _ (Leaves-remove_timer total p m.product_id m.user_id))
        (Leaves-collect _ _ (Leaves-restore_some m.product_id m.quantity)
          (Leaves-advance_queue total p s m.product_id)))

  Leaves-refresh :
      (status : RightStatus) (m : QueueMembership) (r : Right)
      → Leaves (NoOversell total p 0) (refresh_settled status s m r) (NoOversell total p 0)
  Leaves-refresh expired m r = Leaves-sync total p s m _
  Leaves-refresh _ m r = Leaves-set_right total p r

  -- The right's row is worth what the membership says.
  abbrev Covers : QueueMembership → Right → Type 0
  Covers m r = (r.product_id ≡ m.product_id) × (m.quantity ≤ r.quantity)

  Leaves-transition :
      (m final : QueueMembership) (remove_timer : Bool) (r : Right) (transitioned : Bool)
      → Covers m r
      → Leaves
          (NoOversell total p (freed_units total p (r, transitioned)))
          (if transitioned
            then return_right s m final r remove_timer
            else refresh_settled r.status s final r)
          (NoOversell total p 0)
  Leaves-transition m final remove_timer r true c =
      from_more total p _ (ground (arith, c.0, c.1)) (Leaves-return_right m final r remove_timer)
  Leaves-transition m final remove_timer r false c = Leaves-refresh r.status final r

  Leaves-expire_token :
      (m : QueueMembership) (remove_timer : Bool) (token : Option ℕ)
      → m.current_token ≡ token
      → Triple
          (SafeWith total p (IsBacked m))
          (expire_token s m remove_timer token)
          (λ _. NoOversell total p 0)
          (NoOversell total p 0)
  Leaves-expire_token m remove_timer none e = Triple-raise invalid_status (λ st h. h.0)
  Leaves-expire_token m remove_timer (some t) e = Triple-clock _ λ now.
      Triple-bind _ _
        (Triple-before _ (λ st h. (h.0, λ r k. h.1.backed_right t r e k))
          (expire_right-Triple total p {F = Covers m} t (settled now m) (ground arith)
            (λ r r' c ep eq. (ep ∙ c.0, omega (arith, c.1, eq)))))
        λ (r, transitioned).
          Triple-given _ (Leaves-transition m (settled now m) remove_timer r transitioned)

  pub Leaves-expire_active_right :
      (m : QueueMembership) (remove_timer : Bool)
      → Triple
          (SafeWith total p (IsBacked m))
          (expire_active_right s m remove_timer)
          (λ _. NoOversell total p 0)
          (NoOversell total p 0)
  unfolding expire_active_right
  Leaves-expire_active_right m remove_timer =
      Leaves-expire_token m remove_timer m.current_token refl

  refuse :
      (m : QueueMembership)
      → Triple
          (SafeWith total p (IsBacked m))
          (raise {A = Unit {0}} invalid_status)
          (λ _. NoOversell total p 0)
          (NoOversell total p 0)
  refuse m = Triple-raise invalid_status (λ st h. h.0)

  Leaves-leave_by_status :
      (status : MembershipStatus) (available : Option ℕ) (offer_only : Bool) (m : QueueMembership)
      → m.status ≡ status
      → m.available_quantity ≡ available
      → Triple
          (SafeWith total p (IsBacked m))
          (leave_by_status status available offer_only s m)
          (λ _. NoOversell total p 0)
          (NoOversell total p 0)
  Leaves-leave_by_status queued available true m es ea = refuse m
  Leaves-leave_by_status queued available false m es ea =
      Triple-before _ (λ st h. (h.0, inl refl)) (Leaves-settle_leave m 0 true false)
  Leaves-leave_by_status offer_pending none offer_only m es ea = refuse m
  Leaves-leave_by_status offer_pending (some n) offer_only m es ea =
      Triple-before _ (λ st h. (h.0, h.1.backed_offer n es ea)) (Leaves-settle_leave m n false true)
  Leaves-leave_by_status right_active available true m es ea = refuse m
  Leaves-leave_by_status right_active available false m es ea = Leaves-expire_active_right m true
  Leaves-leave_by_status _ available offer_only m es ea = refuse m

  module _ (q u : ℕ) (offer_only : Bool) where
    Leaves-leave_claimed :
        Triple
          (Ready total p q u)
          (leave_claimed s q u offer_only)
          (λ _. NoOversell total p 0)
          (NoOversell total p 0)
    unfolding leave_claimed
    Leaves-leave_claimed = Triple-bind _ _ (get_membership-Triple-Ready total p q u) λ m.
        Triple-before _ (λ st h. (h.0, h.1))
          (Triple-bind _ _ (Triple-refuse_expired total p (IsBacked m) m.expires_at)
            λ _. Leaves-leave_by_status m.status m.available_quantity offer_only m refl refl)

    pub Leaves-leave_with :
        Leaves (Ready total p q u) (leave_with s q u offer_only) (NoOversell total p 0)
    unfolding leave_with
    Leaves-leave_with =
        Leaves-with_claim q u _ _ (Leaves-claim-Ready total p q u q u)
          (Leaves-release_claim total p q u) (Ready-NoOversell total p q u)
          (Triple-raise concurrent_join (Ready-NoOversell total p q u)) Leaves-leave_claimed
