-- ===== src/Oversell/Expiration.antt =====
-- Handling an expired timer never promises a unit twice, whichever of its calls fail, if PostgreSQL
-- backs the cached membership when it begins.
use team_10_queue_serivce.Base.{ℕ, ◌≡◌, refl, true, false, Option, none, some, arith, ltb}
use team_10_queue_serivce.Models.Status.{MembershipStatus, queued, right_active, offer_pending}
use team_10_queue_serivce.Models.{
  QueueMembership, ExpiryClaim, invalid_status, concurrent_join, is_invalid_status,
  presence_claim_product,
}
use team_10_queue_serivce.Models.Result.{Result, ok, err}
use team_10_queue_serivce.Redis.Repo.{get_user_presence_deadline}
use team_10_queue_serivce.World.Triple.{
  Triple, Leaves, Triple-pure, Triple-raise, Triple-bind, Triple-if, Triple-before, Triple-attempt,
  Leaves-collect,
}
use team_10_queue_serivce.Service.Config.{QueueService}
use team_10_queue_serivce.Service.Expiration.{
  expire_queued_membership, while_present, handle_queued_presence_expiry, expire_offer_of,
  expire_pending_offer, settle_right, expire_by_status, is_open, lacks_deadline, handle_membership,
  handle_expired_key,
}
use team_10_queue_serivce.Oversell.{Unsaved, NoOversell}
use team_10_queue_serivce.Oversell.Calls.{Leaves-read, upsert-Triple}
use team_10_queue_serivce.Oversell.Steps.{Leaves-with_claim}
use team_10_queue_serivce.Oversell.Neutral.{
  Leaves-sync, Leaves-add_timer, Leaves-remove_from_queue, Leaves-claim, Leaves-release_claim,
}
use team_10_queue_serivce.Oversell.Advance.{forget_units, forget_and_raise, Leaves-advance_queue}
use team_10_queue_serivce.Oversell.Ready.{
  IsBacked, Ready, Ready-NoOversell, Leaves-claim-Ready, get_membership-Triple-Ready, SafeWith,
  upsert-settled-Triple,
}
use team_10_queue_serivce.Oversell.Leave.{Leaves-restore_some, Leaves-expire_active_right}

module _ (total : Unsaved) (p : ℕ) (s : QueueService) where
  Keeps-expire_queued :
      (m : QueueMembership) (now : ℕ)
      → Leaves (NoOversell total p 0) (expire_queued_membership s m now) (NoOversell total p 0)
  unfolding expire_queued_membership
  Keeps-expire_queued m now = Triple-bind _ _ (upsert-Triple total p 0 _ (ground arith)) λ _.
      Leaves-collect _ _ (Leaves-sync total p s _ _)
        (Leaves-remove_from_queue total p m.product_id m.user_id)

  Keeps-while_present :
      (m : QueueMembership) (now : ℕ) (deadline : Option ℕ)
      → Leaves (NoOversell total p 0) (while_present s m now deadline) (NoOversell total p 0)
  Keeps-while_present m now none = Keeps-expire_queued m now
  Keeps-while_present m now (some t) =
      Triple-if (ltb now t) _ _ (λ e. Leaves-add_timer total p m.product_id m.user_id t)
        (λ e. Keeps-expire_queued m now)

  Keeps-presence :
      (m : QueueMembership) (now : ℕ)
      → Leaves (NoOversell total p 0) (handle_queued_presence_expiry s m now) (NoOversell total p 0)
  unfolding handle_queued_presence_expiry get_user_presence_deadline
  Keeps-presence m now =
      Leaves-with_claim presence_claim_product m.user_id _ _
        (Leaves-claim total p presence_claim_product m.user_id)
        (Leaves-release_claim total p presence_claim_product m.user_id) (λ st h. h)
        (forget_and_raise total p concurrent_join)
        (Triple-bind _ _ (Leaves-read total p _) (Keeps-while_present m now))

  Leaves-expire_offer :
      (m : QueueMembership) (now : ℕ) (available : Option ℕ)
      → m.status ≡ offer_pending
      → m.available_quantity ≡ available
      → Triple
          (SafeWith total p (IsBacked m))
          (expire_offer_of available s m now)
          (λ _. NoOversell total p 0)
          (NoOversell total p 0)
  Leaves-expire_offer m now none es ea = Triple-raise invalid_status (λ st h. h.0)
  Leaves-expire_offer m now (some n) es ea =
      Triple-bind _ _
        (Triple-before _ (λ st h. (h.0, h.1.backed_offer n es ea))
          (upsert-settled-Triple total p now n m))
        λ _. Leaves-collect _ _ (Leaves-sync total p s _ _) (
          Leaves-collect _ _ (Leaves-restore_some total p s m.product_id n)
            (Leaves-advance_queue total p s m.product_id))

  Keeps-settle_right :
      (r : Result (Unit {0}))
      → Leaves (NoOversell total p 0) (settle_right r) (NoOversell total p 0)
  Keeps-settle_right (ok tt) = forget_units total p tt
  Keeps-settle_right (err e) =
      Triple-if (is_invalid_status e) _ _ (λ _. forget_units total p tt)
        (λ _. forget_and_raise total p e)

  Leaves-expire_by_status :
      (status : MembershipStatus) (m : QueueMembership) (now : ℕ)
      → m.status ≡ status
      → is_open status ≡ true
      → Triple
          (SafeWith total p (IsBacked m))
          (expire_by_status status s m now)
          (λ _. NoOversell total p 0)
          (NoOversell total p 0)
  unfolding expire_pending_offer
  Leaves-expire_by_status queued m now es eo = Triple-before _ (λ st h. h.0) (Keeps-presence m now)
  Leaves-expire_by_status right_active m now es eo =
      Triple-attempt _ settle_right (Leaves-expire_active_right total p s m false)
        (λ u. Keeps-settle_right (ok u)) (λ e. Keeps-settle_right (err e))
  Leaves-expire_by_status offer_pending m now es eo =
      Leaves-expire_offer m now m.available_quantity es refl
  Leaves-expire_by_status _ m now es eo = cc

  Leaves-handle_membership :
      (claim : ExpiryClaim) (m : QueueMembership) (now : ℕ)
      → Triple
          (SafeWith total p (IsBacked m))
          (handle_membership s claim m now)
          (λ _. NoOversell total p 0)
          (NoOversell total p 0)
  unfolding handle_membership
  Leaves-handle_membership claim m now =
      Triple-if (is_open m.status) _ _
        (λ eo.
          Triple-if (lacks_deadline m.status m.expires_at) _ _
            (λ e. Triple-raise invalid_status (λ st h. h.0))
            λ e.
              Triple-if (ltb claim.deadline m.updated_at) _ _
                (λ f.
                  Triple-before _ (λ st h. h.0)
                    (Leaves-add_timer total p claim.product_id claim.user_id _))
                (λ f. Leaves-expire_by_status m.status m now refl eo))
        (λ e. Triple-pure tt (λ st h. h.0))

  pub Leaves-handle_expired_key :
      (claim : ExpiryClaim) (now : ℕ)
      → Leaves
          (Ready total p claim.product_id claim.user_id)
          (handle_expired_key s claim now)
          (NoOversell total p 0)
  unfolding handle_expired_key
  Leaves-handle_expired_key claim now =
      let weaken = Ready-NoOversell total p claim.product_id claim.user_id in
      Leaves-with_claim claim.product_id claim.user_id _ _
        (Leaves-claim-Ready total p claim.product_id claim.user_id claim.product_id claim.user_id)
        (Leaves-release_claim total p claim.product_id claim.user_id) weaken
        (Triple-raise concurrent_join weaken)
        (Triple-bind _ _ (get_membership-Triple-Ready total p claim.product_id claim.user_id)
          λ m. Triple-before _ (λ st h. (h.0, h.1)) (Leaves-handle_membership claim m now))
