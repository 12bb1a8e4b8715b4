-- ===== src/Oversell/Neutral.antt =====
-- The calls that move no unit of a product.
use team_10_queue_serivce.Base.{ℕ, refl, Bool, ◌||◌, Option, none, some, arith, is_some}
use team_10_queue_serivce.Models.Status.{is_queued}
use team_10_queue_serivce.Models.{QueueMembership, Right}
use team_10_queue_serivce.Redis.State.{Cache}
use team_10_queue_serivce.Redis.Scripts.{
  enqueue_script, remove_from_queue_script, requeue_script, claim_set_nx,
  release_membership_claim_script, occupy_queue_slot_script,
}
use team_10_queue_serivce.Redis.Repo.{
  set_right, add_to_expiry_timer, remove_from_expiry_timer, publish_event, enqueue,
  remove_from_queue, requeue, claim_membership, release_membership_claim, try_occupy_queue_slot,
  release_queue_slot,
}
use team_10_queue_serivce.World.{M, pure, when}
use team_10_queue_serivce.World.Triple.{
  Leaves, Triple-pure, Triple-bind, Triple-if, Triple-clock, Triple-attempt,
}
use team_10_queue_serivce.Service.Config.{QueueService}
use team_10_queue_serivce.Service.Sync.{sync_cache_state, cache_right}
use team_10_queue_serivce.Oversell.{Unsaved, NoOversell}
use team_10_queue_serivce.Oversell.Calls.{SameUnits, Leaves-neutral, Leaves-set_membership}

pub claim_set_nx-SameUnits :
    (p u owner ttl now : ℕ) (c : Cache) → SameUnits c (claim_set_nx p u owner now ttl c).1
unfolding claim_set_nx
claim_set_nx-SameUnits p u owner ttl now c = ground arith

release-SameUnits :
    (p u owner now : ℕ) (c : Cache) → SameUnits c (release_membership_claim_script p u owner now c)
unfolding release_membership_claim_script
release-SameUnits p u owner now c = ground arith

occupy-SameUnits :
    (u p limit : ℕ) (c : Cache) → SameUnits c (occupy_queue_slot_script u p limit c).1
unfolding occupy_queue_slot_script
occupy-SameUnits u p limit c = ground arith

module _ (total : Unsaved) (p : ℕ) where
  module _ {n : ℕ} where
    pub Leaves-claim :
        (q u owner ttl : ℕ)
        → Leaves (NoOversell total p n) (claim_membership q u owner ttl) (NoOversell total p n)
    unfolding claim_membership
    Leaves-claim q u owner ttl =
        Leaves-neutral total p _ (λ now c. claim_set_nx-SameUnits q u owner ttl now c)

    pub Leaves-release_claim :
        (q u owner : ℕ)
        → Leaves (NoOversell total p n) (release_membership_claim q u owner) (NoOversell total p n)
    unfolding release_membership_claim
    Leaves-release_claim q u owner =
        Leaves-neutral total p _ (λ now c. release-SameUnits q u owner now c)

    pub Leaves-occupy :
        (u q limit : ℕ)
        → Leaves (NoOversell total p n) (try_occupy_queue_slot u q limit) (NoOversell total p n)
    unfolding try_occupy_queue_slot
    Leaves-occupy u q limit = Leaves-neutral total p _ (λ now c. occupy-SameUnits u q limit c)

    pub Leaves-release_slot :
        (u q : ℕ) → Leaves (NoOversell total p n) (release_queue_slot u q) (NoOversell total p n)
    unfolding release_queue_slot
    Leaves-release_slot u q = Leaves-neutral total p _ (λ now c. (refl, refl))

    pub Leaves-requeue :
        (q u score : ℕ) → Leaves (NoOversell total p n) (requeue q u score) (NoOversell total p n)
    unfolding requeue requeue_script
    Leaves-requeue q u score = Leaves-neutral total p _ (λ now c. (refl, refl))

    pub Leaves-enqueue :
        (q u : ℕ) → Leaves (NoOversell total p n) (enqueue q u) (NoOversell total p n)
    unfolding enqueue enqueue_script
    Leaves-enqueue q u = Leaves-neutral total p _ (λ now c. (refl, refl))

    pub Leaves-remove_from_queue :
        (q u : ℕ) → Leaves (NoOversell total p n) (remove_from_queue q u) (NoOversell total p n)
    unfolding remove_from_queue remove_from_queue_script
    Leaves-remove_from_queue q u = Leaves-neutral total p _ (λ now c. (refl, refl))

    pub Leaves-remove_timer :
        (q u : ℕ)
        → Leaves (NoOversell total p n) (remove_from_expiry_timer q u) (NoOversell total p n)
    unfolding remove_from_expiry_timer
    Leaves-remove_timer q u = Leaves-neutral total p _ (λ now c. (refl, refl))

    pub Leaves-add_timer :
        (q u t : ℕ)
        → Leaves (NoOversell total p n) (add_to_expiry_timer q u t) (NoOversell total p n)
    unfolding add_to_expiry_timer
    Leaves-add_timer q u t = Leaves-neutral total p _ (λ now c. (refl, refl))

    pub Leaves-set_right :
        (r : Right) → Leaves (NoOversell total p n) (set_right r) (NoOversell total p n)
    unfolding set_right
    Leaves-set_right r = Leaves-neutral total p _ (λ now c. (refl, refl))

    Leaves-publish :
        (q u : ℕ) → Leaves (NoOversell total p n) (publish_event q u) (NoOversell total p n)
    unfolding publish_event
    Leaves-publish q u = Leaves-neutral total p _ (λ now c. (refl, refl))

    Leaves-done :
        {A : Type 0} (a : A) → Leaves (NoOversell total p n) (pure a) (NoOversell total p n)
    Leaves-done a = Triple-pure a (λ st h. h)

    Leaves-cache_right :
        (r : Option Right) → Leaves (NoOversell total p n) (cache_right r) (NoOversell total p n)
    Leaves-cache_right none = Leaves-done tt
    Leaves-cache_right (some r) = Leaves-set_right r

    pub Leaves-when :
        (b : Bool) (m : M (Unit {0}))
        → Leaves (NoOversell total p n) m (NoOversell total p n)
        → Leaves (NoOversell total p n) (when b m) (NoOversell total p n)
    Leaves-when b m h = Triple-if b m (pure tt) (λ e. h) (λ e. Leaves-done tt)

    -- Bringing the cache up to date moves no unit, wherever it stops.
    pub Leaves-sync :
        (s : QueueService) (m : QueueMembership) (r : Option Right)
        → Leaves (NoOversell total p n) (sync_cache_state s m r) (NoOversell total p n)
    unfolding sync_cache_state
    Leaves-sync s m r = Triple-bind _ _ (Leaves-cache_right r) λ _.
        Triple-bind _ _
          (Leaves-when (is_queued m.status || is_some m.expires_at) _
            (Triple-clock _ (λ now. Leaves-add_timer m.product_id m.user_id _)))
          λ _. Triple-bind _ _ (Leaves-set_membership total p m) λ _.
            Triple-attempt _ (λ _. pure tt) (Leaves-publish m.product_id m.user_id)
              (λ _. Leaves-done tt) (λ _. Leaves-done tt)
