-- ===== src/Lasting/Expiration.antt =====
-- The expiration of timers keeps what lasts of the rights.
use team_10_queue_serivce.Base.{ℕ, ◌+◌, refl, false, List, [], ◌∷◌, Option, none, some, ltb}
use team_10_queue_serivce.Models.Status.{MembershipStatus, queued, right_active}
use team_10_queue_serivce.Models.{
  QueueMembership, Right, ExpiryClaim, concurrent_join, invalid_status, is_invalid_status,
  presence_claim_product,
}
use team_10_queue_serivce.Models.Result.{ok, err}
use team_10_queue_serivce.Redis.Repo.{
  get_user_presence_deadline, reclaim_stale_expired, claim_expired, ack_expired, nack_expired,
}
use team_10_queue_serivce.World.{M, pure, attempt, ◌>>=◌}
use team_10_queue_serivce.World.Triple.{
  Triple-bind, Triple-if, Triple-clock, Triple-attempt, Leaves-collect,
}
use team_10_queue_serivce.Service.Config.{QueueService}
use team_10_queue_serivce.Service.Leave.{expire_active_right}
use team_10_queue_serivce.Service.Expiration.{
  expire_queued_membership, while_present, handle_queued_presence_expiry, expire_offer_of,
  expire_pending_offer, settle_right, expire_by_status, is_open, lacks_deadline, handle_membership,
  handle_expired_key, handle_claims, process_expirations, expiration_lease, expiration_batch_size,
  expiration_retry_delay,
}
use team_10_queue_serivce.Lasting.{IsLasting, Keeps}
use team_10_queue_serivce.Lasting.Calls.{
  Keeps-call, Keeps-pure, Keeps-raise, Keeps-when, Keeps-upsert, Keeps-with_claim,
}
use team_10_queue_serivce.Lasting.Advance.{
  Keeps-add_to_expiry_timer, Keeps-get_membership, Keeps-restore, Keeps-sync, Keeps-advance_queue,
}
use team_10_queue_serivce.Lasting.Leave.{Keeps-remove, Keeps-expire_active_right}

module _ (K : List Right → Type 0) (lasts : IsLasting K) (s : QueueService) where
  Keeps-expire_queued : (m : QueueMembership) (now : ℕ) → Keeps K (expire_queued_membership s m now)
  unfolding expire_queued_membership
  Keeps-expire_queued m now =
      Triple-bind _ _ (Keeps-upsert K lasts _)
        λ _. Leaves-collect _ _ (Keeps-sync K s _ _) (Keeps-remove K lasts s _ _)

  Keeps-while_present :
      (m : QueueMembership) (now : ℕ) (deadline : Option ℕ)
      → Keeps K (while_present s m now deadline)
  Keeps-while_present m now none = Keeps-expire_queued m now
  Keeps-while_present m now (some t) =
      Triple-if (ltb now t) _ _ (λ _. Keeps-add_to_expiry_timer K _ _ _)
        (λ _. Keeps-expire_queued m now)

  Keeps-offer_of :
      (available : Option ℕ) (m : QueueMembership) (now : ℕ)
      → Keeps K (expire_offer_of available s m now)
  Keeps-offer_of none m now = Keeps-raise K invalid_status
  Keeps-offer_of (some n) m now = Triple-bind _ _ (Keeps-upsert K lasts _) λ _.
      Leaves-collect _ _ (Keeps-sync K s _ _) (
        Leaves-collect _ _ (Keeps-when K (ltb 0 n) _ (Keeps-restore K _ _))
          (Keeps-advance_queue K lasts s _))

  Keeps-presence_expiry :
      (m : QueueMembership) (now : ℕ) → Keeps K (handle_queued_presence_expiry s m now)
  unfolding handle_queued_presence_expiry get_user_presence_deadline
  Keeps-presence_expiry m now =
      Keeps-with_claim K presence_claim_product m.user_id _ _ (Keeps-raise K concurrent_join)
        (Triple-bind _ _ (Keeps-call K _ (λ now st. refl)) (Keeps-while_present m now))

  Keeps-by_status :
      (status : MembershipStatus) (m : QueueMembership) (now : ℕ)
      → Keeps K (expire_by_status status s m now)
  unfolding expire_pending_offer
  Keeps-by_status queued m now = Keeps-presence_expiry m now
  Keeps-by_status right_active m now =
      Triple-attempt (expire_active_right s m false) settle_right
        (Keeps-expire_active_right K lasts s m false) (λ _. Keeps-pure K tt)
        λ e. Triple-if (is_invalid_status e) _ _ (λ _. Keeps-pure K tt) (λ _. Keeps-raise K e)
  Keeps-by_status _ m now = Keeps-offer_of m.available_quantity m now

  Keeps-handle_membership :
      (claim : ExpiryClaim) (m : QueueMembership) (now : ℕ)
      → Keeps K (handle_membership s claim m now)
  unfolding handle_membership
  Keeps-handle_membership claim m now =
      Triple-if (is_open m.status) _ _
        (λ _.
          Triple-if (lacks_deadline m.status m.expires_at) _ _ (λ _. Keeps-raise K invalid_status)
            λ _.
              Triple-if (ltb claim.deadline m.updated_at) _ _
                (λ _. Keeps-add_to_expiry_timer K _ _ _) (λ _. Keeps-by_status m.status m now))
        (λ _. Keeps-pure K tt)

  Keeps-expired_key : (claim : ExpiryClaim) (now : ℕ) → Keeps K (handle_expired_key s claim now)
  unfolding handle_expired_key
  Keeps-expired_key claim now =
      Keeps-with_claim K claim.product_id claim.user_id _ _ (Keeps-raise K concurrent_join)
        (Triple-bind _ _ (Keeps-get_membership K _ _) λ m. Keeps-handle_membership claim m now)

  Keeps-handle_claims : (claims : List ExpiryClaim) (now : ℕ) → Keeps K (handle_claims s claims now)
  unfolding handle_claims
  Keeps-handle_claims [] now = Keeps-pure K _
  Keeps-handle_claims (claim ∷ claims) now =
      let rest = Keeps-handle_claims claims now in
      Triple-attempt (handle_expired_key s claim now)
        (λ r. handle_claims s claims now >>= λ (handled, failed). elim r [
          | ok u ↦ pure (claim ∷ handled, failed)
          | err e ↦ pure (handled, claim ∷ failed)
        ])
        (Keeps-expired_key claim now)
        (λ _. Triple-bind _ _ rest (λ (handled, failed). Keeps-pure K (claim ∷ handled, failed)))
        (λ _. Triple-bind _ _ rest (λ (handled, failed). Keeps-pure K (handled, claim ∷ failed)))

  Keeps-reclaim : (now : ℕ) → Keeps K (reclaim_stale_expired now)
  unfolding reclaim_stale_expired
  Keeps-reclaim now = Keeps-call K _ (λ now st. refl)

  Keeps-claim_expired : (now lease limit : ℕ) → Keeps K (claim_expired now lease limit)
  unfolding claim_expired
  Keeps-claim_expired now lease limit = Keeps-call K _ (λ now st. refl)

  Keeps-ack : (claims : List ExpiryClaim) → Keeps K (ack_expired claims)
  unfolding ack_expired
  Keeps-ack [] = Keeps-pure K tt
  Keeps-ack (c ∷ cs) = Keeps-call K _ (λ now st. refl)

  Keeps-nack : (claims : List ExpiryClaim) (t : ℕ) → Keeps K (nack_expired claims t)
  unfolding nack_expired
  Keeps-nack [] t = Keeps-pure K tt
  Keeps-nack (c ∷ cs) t = Keeps-call K _ (λ now st. refl)

  -- The end of the pass, behind the loop.
  abbrev give_back : List ExpiryClaim → List ExpiryClaim → ℕ → M (Unit {0})
  give_back handled failed t = do
    acked ← attempt (ack_expired handled)
    nacked ← attempt (nack_expired failed t)
    pure tt

  Keeps-give_back :
      (handled failed : List ExpiryClaim) (t : ℕ) → Keeps K (give_back handled failed t)
  Keeps-give_back handled failed t =
      let nacked =
        Triple-attempt (nack_expired failed t) (λ _. pure tt) (Keeps-nack failed t)
          (λ _. Keeps-pure K tt) (λ _. Keeps-pure K tt) in
      Triple-attempt (ack_expired handled) (λ _. attempt (nack_expired failed t) >>= λ _. pure tt)
        (Keeps-ack handled) (λ _. nacked) (λ _. nacked)

  abbrev take_claims : ℕ → M (Unit {0})
  take_claims now = do
    claims ← claim_expired now expiration_lease expiration_batch_size
    (handled, failed) ← handle_claims s claims now
    give_back handled failed (now + expiration_retry_delay)

  Keeps-take_claims : (now : ℕ) → Keeps K (take_claims now)
  Keeps-take_claims now =
      Triple-bind _ _ (Keeps-claim_expired now expiration_lease expiration_batch_size) λ claims.
        Triple-bind _ _ (Keeps-handle_claims claims now)
          λ (handled, failed). Keeps-give_back handled failed (now + expiration_retry_delay)

  pub Keeps-process_expirations : Keeps K (process_expirations s)
  unfolding process_expirations
  Keeps-process_expirations = Triple-clock _ λ now.
      Triple-attempt (reclaim_stale_expired now) (λ _. take_claims now) (Keeps-reclaim now)
        (λ _. Keeps-take_claims now) (λ _. Keeps-take_claims now)
