-- ===== src/Oversell/Accept.antt =====
-- Accepting an offer never promises a unit twice, whichever of its calls fail, if PostgreSQL backs
-- the cached offer when it begins.
use team_10_queue_serivce.Base.{
  ℕ, zero, suc, ◌-◌, ◌≤◌, ◌≡◌, refl, true, ◌&&◌, Option, none, some, arith, inl, inr, ltb,
  Bool-cases, Option-cases, ◌++◌, [], ◌∷◌,
}
use team_10_queue_serivce.Base.Int.{ℤ, pos, negsuc}
use team_10_queue_serivce.Models.Status.{
  MembershipStatus, right_active, offer_pending, is_offer_pending,
}
use team_10_queue_serivce.Models.{
  QueueMembership, Right, invalid_status, quantity_invalid, quantity_exceeded, concurrent_join,
}
use team_10_queue_serivce.Postgres.Rows.{
  find_right, insert_right, upsert_membership, references_right,
}
use team_10_queue_serivce.Postgres.Rights.{issue_right_and_upsert_membership}
use team_10_queue_serivce.World.{Store, M, committed}
use team_10_queue_serivce.World.Triple.{
  Ends, Triple, Leaves, Triple-call, Triple-raise, Triple-bind, Triple-if, Triple-before,
  Triple-clock, Triple-uuid, Triple-error,
}
use team_10_queue_serivce.Service.Config.{QueueService, issue_right, join_await_attempts}
use team_10_queue_serivce.Service.Advance.{new_right, holding}
use team_10_queue_serivce.Service.Offer.{
  accepting, settle_accept, accept_available, accept_claimed, await_by_status,
  await_concurrent_accept, accept_positive, accept_offer,
}
use team_10_queue_serivce.Oversell.{Unsaved, offer_units, units_at, NoOversell}
use team_10_queue_serivce.Oversell.Held.{rights_units-append}
use team_10_queue_serivce.Oversell.Calls.{get_membership-Triple, NoOversell-mono}
use team_10_queue_serivce.Oversell.Pool.{Leaves-restore}
use team_10_queue_serivce.Oversell.Steps.{Leaves-with_claim}
use team_10_queue_serivce.Oversell.Neutral.{Leaves-sync, Leaves-release_claim}
use team_10_queue_serivce.Oversell.Advance.{forget_units, forget_and_raise, Leaves-advance_queue}
use team_10_queue_serivce.Oversell.Join.{Keeps-get_right, OthersKeep, Keeps-sleep}
use team_10_queue_serivce.Oversell.Ready.{
  HoldsOffer, IsBacked, Ready, Ready-NoOversell, Leaves-claim-Ready, get_membership-Triple-Ready,
  SafeWith, Triple-refuse_expired, released_offer,
}

offer_pending-eq :
    (status : MembershipStatus) → is_offer_pending status ≡ true → status ≡ offer_pending
offer_pending-eq status h = ground arith

module _ (total : Unsaved) (p : ℕ) where
  -- The offer's row gives up its units, and the right takes no more than those.
  exchanged_units :
      (now n : ℕ) (r : Right) (m m' : QueueMembership) (st : Store)
      → m'.product_id ≡ m.product_id
      → m'.user_id ≡ m.user_id
      → offer_units p m' ≡ 0
      → r.product_id ≡ m.product_id
      → r.quantity ≤ n
      → SafeWith total p (HoldsOffer m n) st
      → Ends
          (λ _. NoOversell total p (units_at m.product_id (n - r.quantity) p))
          (NoOversell total p 0)
          (committed (issue_right_and_upsert_membership now r m' st.durable) st).0
          (committed (issue_right_and_upsert_membership now r m' st.durable) st).1
  unfolding issue_right_and_upsert_membership insert_right upsert_membership
  exchanged_units now n r m m' st ep eu none_offered er le h =
      elim (Option-cases (find_right r.token st.durable.rights)) [
        | inr (old, e) ↦ rw (e, insert_right, issue_right_and_upsert_membership) h.0
        | inl e ↦ elim (Bool-cases (ltb 0 r.quantity)) [
          | inr f ↦ rw (e, f, insert_right, issue_right_and_upsert_membership) h.0
          | inl f ↦
              elim (Bool-cases (
                ltb 0 m'.quantity
                && references_right m'.current_token (st.durable.rights ++ r ∷ []))) [
                  | inr g ↦
                      rw
                        (
                          e, f, g, insert_right, upsert_membership,
                          issue_right_and_upsert_membership,
                        )
                        h.0
                  | inl g ↦
                      rw
                        (
                          e, f, g, insert_right, upsert_membership,
                          issue_right_and_upsert_membership,
                        )
                        (record {
                          keyed = h.0.keyed;
                          bounded = ground (
                            arith,
                            h.0.bounded,
                            rights_units-append p st.durable.rights r,
                            released_offer total p now st.durable.next_membership_id n m m'
                                st.durable ep eu none_offered h.1,
                          );
                        })
                ]
        ]
      ]

  module _ (s : QueueService) where
    Leaves-settle_accept :
        (m : QueueMembership) (n available : ℕ)
        → n ≤ available
        → Triple
            (SafeWith total p (HoldsOffer m available))
            (settle_accept s m n (available - n))
            (λ _. NoOversell total p 0)
            (NoOversell total p 0)
    unfolding settle_accept issue_right
    Leaves-settle_accept m n available le = Triple-clock _ λ now. Triple-uuid _ λ token.
        Triple-bind _ _
          (Triple-call _
            (λ at st h.
              exchanged_units at available (new_right s token now m n) m
                (holding (new_right s token now m n) now (accepting n m)) st refl refl
                (ground arith) refl le h)
            (λ st h. h.0))
          λ _.
            Triple-bind _ _
              (Triple-error _ (λ st h. NoOversell-mono total p st (omega arith) h)
                (Leaves-sync total p s _ _))
              λ _.
                Triple-if (ltb 0 (available - n)) _ _
                  (λ e.
                    Triple-bind _ _
                      (Triple-bind _ _ (Leaves-restore total p m.product_id (available - n))
                        (λ _. Leaves-advance_queue total p s m.product_id))
                      (λ _. forget_units total p _))
                  (λ e. forget_units total p _)

    Leaves-accept_available :
        (available : Option ℕ) (m : QueueMembership) (n : ℕ)
        → m.status ≡ offer_pending
        → m.available_quantity ≡ available
        → Triple
            (SafeWith total p (IsBacked m))
            (accept_available available s m n)
            (λ _. NoOversell total p 0)
            (NoOversell total p 0)
    Leaves-accept_available none m n es ea = Triple-raise invalid_status (λ st h. h.0)
    Leaves-accept_available (some available) m n es ea =
        Triple-if (ltb available n) _ _ (λ e. Triple-raise quantity_exceeded (λ st h. h.0))
          λ e.
            Triple-before _ (λ st h. (h.0, h.1.backed_offer available es ea))
              (Leaves-settle_accept m n available (ground arith))

    Leaves-accept_claimed :
        (q u n : ℕ)
        → Triple
            (Ready total p q u)
            (accept_claimed s q u n)
            (λ _. NoOversell total p 0)
            (NoOversell total p 0)
    unfolding accept_claimed
    Leaves-accept_claimed q u n = Triple-bind _ _ (get_membership-Triple-Ready total p q u) λ m.
        Triple-before _ (λ st h. (h.0, h.1))
          (Triple-bind _ _ (Triple-refuse_expired total p (IsBacked m) m.expires_at) λ _.
            Triple-if (is_offer_pending m.status) _ _
              (λ e.
                Leaves-accept_available m.available_quantity m n (offer_pending-eq m.status e) refl)
              (λ e. Triple-raise invalid_status (λ st h. h.0)))

    Keeps-await_by_status :
        (status : MembershipStatus) (token : Option ℕ) (rest : M Right)
        → Leaves (NoOversell total p 0) rest (NoOversell total p 0)
        → Leaves (NoOversell total p 0) (await_by_status status token rest) (NoOversell total p 0)
    Keeps-await_by_status right_active (some t) rest h = Keeps-get_right total p t
    Keeps-await_by_status offer_pending token rest h = h
    Keeps-await_by_status _ token rest h = forget_and_raise total p invalid_status

    Keeps-await_accept :
        (left q u : ℕ)
        → OthersKeep total p s
        → Leaves (NoOversell total p 0) (await_concurrent_accept left s q u) (NoOversell total p 0)
    unfolding await_concurrent_accept
    Keeps-await_accept zero q u keep = forget_and_raise total p concurrent_join
    Keeps-await_accept (suc left) q u keep =
        let rest = Keeps-await_accept left q u keep in
        Triple-bind _ _ (get_membership-Triple total p q u) λ m.
          Triple-before _ (λ st h. h.0)
            (Keeps-await_by_status m.status m.current_token _
              (Triple-bind _ _ (Keeps-sleep total p s left keep) (λ _. rest)))

    pub Leaves-accept_offer :
        (q u : ℕ) (quantity : ℤ)
        → OthersKeep total p s
        → Leaves (Ready total p q u) (accept_offer s q u quantity) (NoOversell total p 0)
    unfolding accept_offer accept_positive
    Leaves-accept_offer q u (pos zero) keep =
        Triple-raise quantity_invalid (Ready-NoOversell total p q u)
    Leaves-accept_offer q u (pos (suc n)) keep =
        Leaves-with_claim q u _ _ (Leaves-claim-Ready total p q u q u)
          (Leaves-release_claim total p q u) (Ready-NoOversell total p q u)
          (Triple-before _ (Ready-NoOversell total p q u)
            (Keeps-await_accept join_await_attempts q u keep))
          (Leaves-accept_claimed q u (suc n))
    Leaves-accept_offer q u (negsuc n) keep =
        Triple-raise quantity_invalid (Ready-NoOversell total p q u)
