-- ===== src/Lasting/Recovery.antt =====
-- RecoverCache keeps what lasts of the rights.
use team_10_queue_serivce.Base.{ℕ, refl, ◌||◌, List, [], ◌∷◌, Option, none, some, ltb, ◌==◌}
use team_10_queue_serivce.Models.Status.{MembershipStatus, queued, right_active, offer_pending}
use team_10_queue_serivce.Models.{ProductStock, QueueMembership, Right, RecoverySnapshot}
use team_10_queue_serivce.World.Triple.{Triple-bind, Triple-if, Triple-clock}
use team_10_queue_serivce.Redis.Repo.{
  reset_expiry_timers, reset_queue_slots, restore_product_state, set_membership,
}
use team_10_queue_serivce.Postgres.Snapshot.{load_recovery_snapshot}
use team_10_queue_serivce.Service.Recovery.Rights.{
  RecoveryProductState, RecoveryTimer, RecoveryRepairs, Products,
}
use team_10_queue_serivce.Service.Recovery.Members.{
  RecoveredMembers, apply_recovered_pending_offer, apply_by_status, is_bad_membership, apply_known,
  apply_recovery_membership, apply_memberships, decline_now,
}
use team_10_queue_serivce.Service.Recovery.{
  RecoveryState, build_recovery_state, settle_members, expire_listed, apply_recovery_repairs,
  restore_known, restore_products, cache_memberships, cache_rights, add_timers, rebuild_cache,
  recover_cache,
}
use team_10_queue_serivce.Lasting.{IsLasting, Keeps}
use team_10_queue_serivce.Lasting.Calls.{Keeps-call, Keeps-pure, Keeps-upsert, Keeps-expire_rights}
use team_10_queue_serivce.Lasting.Advance.{Keeps-set_right, Keeps-add_to_expiry_timer}

module _ (K : List Right → Type 0) where
  Keeps-decline_now : (m : QueueMembership) (acc : RecoveredMembers) → Keeps K (decline_now m acc)
  Keeps-decline_now m acc = Triple-clock _ λ now. Keeps-pure K _

  Keeps-pending_offer :
      (m : QueueMembership) (units deadline : Option ℕ) (product : RecoveryProductState)
      (acc : RecoveredMembers)
      → Keeps K (apply_recovered_pending_offer m units deadline product acc)
  Keeps-pending_offer m (some n) (some t) product acc =
      Triple-if ((n == 0) || ltb m.quantity n) _ _ (λ _. Keeps-decline_now m acc)
        (λ _. Keeps-pure K _)
  Keeps-pending_offer m (some n) none product acc = Keeps-decline_now m acc
  Keeps-pending_offer m none t product acc = Keeps-decline_now m acc

  module _ (now : ℕ) (by_token : List Right) where
    Keeps-apply_by_status :
        (status : MembershipStatus) (m : QueueMembership) (product : RecoveryProductState)
        (acc : RecoveredMembers)
        → Keeps K (apply_by_status status now by_token m product acc)
    Keeps-apply_by_status queued m product acc = Keeps-pure K _
    Keeps-apply_by_status right_active m product acc = Keeps-pure K _
    Keeps-apply_by_status offer_pending m product acc =
        Keeps-pending_offer m m.available_quantity m.expires_at product acc
    Keeps-apply_by_status _ m product acc = Keeps-pure K _

    Keeps-apply_known :
        (m : QueueMembership) (product : Option RecoveryProductState) (acc : RecoveredMembers)
        → Keeps K (apply_known now by_token m product acc)
    Keeps-apply_known m none acc = Keeps-pure K _
    Keeps-apply_known m (some product) acc = Keeps-apply_by_status m.status m product acc

    Keeps-apply_memberships :
        (ms : List QueueMembership) (acc : RecoveredMembers)
        → Keeps K (apply_memberships now by_token ms acc)
    unfolding apply_memberships apply_recovery_membership
    Keeps-apply_memberships [] acc = Keeps-pure K _
    Keeps-apply_memberships (m ∷ ms) acc =
        Triple-bind _ _
          (Triple-if (is_bad_membership m) _ _ (λ _. Keeps-pure K _)
            (λ _. Keeps-apply_known m (acc.products m.product_id) acc))
          λ (m', acc').
            Triple-bind _ _ (Keeps-apply_memberships ms acc') (λ (ms', acc''). Keeps-pure K _)

  Keeps-build :
      (snapshot : RecoverySnapshot) (now : ℕ) → Keeps K (build_recovery_state snapshot now)
  unfolding build_recovery_state
  Keeps-build snapshot now =
      Triple-bind _ _ (Keeps-apply_memberships now _ snapshot.memberships _)
        (λ (ms, acc). Keeps-pure K _)

  Keeps-restore :
      (p n available : ℕ) (us : List ℕ) → Keeps K (restore_product_state p n available us)
  unfolding restore_product_state
  Keeps-restore p n available us =
      Triple-bind _ _ (Keeps-call K _ (λ now st. refl)) (λ _. Keeps-call K _ (λ now st. refl))

  Keeps-restore_products :
      (products : Products) (stocks : List ProductStock)
      → Keeps K (restore_products products stocks)
  unfolding restore_products
  Keeps-restore_products products [] = Keeps-pure K tt
  Keeps-restore_products products (stock ∷ stocks) =
      Triple-bind _ _ (known (products stock.product_id))
        (λ _. Keeps-restore_products products stocks)
    where
      known : (product : Option RecoveryProductState) → Keeps K (restore_known stock product)
      known none = Keeps-pure K tt
      known (some product) = Keeps-restore _ _ _ _

  Keeps-cache_memberships : (ms : List QueueMembership) → Keeps K (cache_memberships ms)
  unfolding cache_memberships set_membership
  Keeps-cache_memberships [] = Keeps-pure K tt
  Keeps-cache_memberships (m ∷ ms) =
      Triple-bind _ _ (Keeps-call K _ (λ now st. refl)) (λ _. Keeps-cache_memberships ms)

  Keeps-cache_rights : (rs : List Right) → Keeps K (cache_rights rs)
  unfolding cache_rights
  Keeps-cache_rights [] = Keeps-pure K tt
  Keeps-cache_rights (r ∷ rs) = Triple-bind _ _ (Keeps-set_right K r) (λ _. Keeps-cache_rights rs)

  Keeps-add_timers : (ts : List RecoveryTimer) → Keeps K (add_timers ts)
  unfolding add_timers
  Keeps-add_timers [] = Keeps-pure K tt
  Keeps-add_timers (t ∷ ts) =
      Triple-bind _ _ (Keeps-add_to_expiry_timer K _ _ _) (λ _. Keeps-add_timers ts)

  Keeps-rebuild_cache :
      (stocks : List ProductStock) (state : RecoveryState) → Keeps K (rebuild_cache stocks state)
  unfolding rebuild_cache reset_expiry_timers reset_queue_slots
  Keeps-rebuild_cache stocks state = Triple-bind _ _ (Keeps-call K _ (λ now st. refl)) λ _.
      Triple-bind _ _ (Keeps-call K _ (λ now st. refl)) λ _.
        Triple-bind _ _ (Keeps-restore_products state.products stocks) λ _.
          Triple-bind _ _ (Keeps-cache_memberships state.memberships) λ _.
            Triple-bind _ _ (Keeps-cache_rights state.rights) λ _. Keeps-add_timers state.timers

  module _ (lasts : IsLasting K) where
    Keeps-settle_members : (ms : List QueueMembership) → Keeps K (settle_members ms)
    unfolding settle_members
    Keeps-settle_members [] = Keeps-pure K tt
    Keeps-settle_members (m ∷ ms) =
        Triple-bind _ _ (Keeps-upsert K lasts m) (λ _. Keeps-settle_members ms)

    Keeps-repairs : (repairs : RecoveryRepairs) → Keeps K (apply_recovery_repairs repairs)
    unfolding apply_recovery_repairs
    Keeps-repairs repairs =
        Triple-bind _ _ (listed repairs.expired_rights)
          (λ _. Keeps-settle_members repairs.declined_members)
      where
        listed : (tokens : List ℕ) → Keeps K (expire_listed tokens)
        listed [] = Keeps-pure K tt
        listed (t ∷ ts) = Keeps-expire_rights K lasts (t ∷ ts)

    pub Keeps-recover_cache : Keeps K recover_cache
    unfolding recover_cache load_recovery_snapshot
    Keeps-recover_cache = Triple-bind _ _ (Keeps-call K _ (λ now st. refl)) λ snapshot.
        Triple-clock _ λ now. Triple-bind _ _ (Keeps-build snapshot now) λ state.
          Triple-bind _ _ (Keeps-repairs state.repairs)
            (λ _. Keeps-rebuild_cache snapshot.stocks state)
