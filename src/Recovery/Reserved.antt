-- ===== src/Recovery/Reserved.antt =====
-- The loop over the memberships of a snapshot: what it reserves of a product covers the rights that it
-- claims and the offers that it keeps.
use team_10_queue_serivce.Base.{
  ℕ, ◌+◌, ◌≤◌, ◌≡◌, refl, sym, Bool, true, false, ◌||◌, List, [], ◌∷◌, Option, none, some, arith,
  inl, inr, ltb, ◌==◌, is_some, Bool-cases, Option-cases, update, subst,
}
use team_10_queue_serivce.Models.{Right, QueueMembership}
use team_10_queue_serivce.Models.Status.{
  MembershipStatus, is_offer_pending, queued, right_active, offer_pending, declined, purchased,
  sold_out,
}
use team_10_queue_serivce.Postgres.Rows.{find_right}
use team_10_queue_serivce.World.{Store, pure, ◌>>=◌}
use team_10_queue_serivce.World.Triple.{
  Always, Never, Triple, Triple-pure, Triple-if, Triple-bind, Triple-given, Triple-clock,
}
use team_10_queue_serivce.Service.Recovery.Rights.{
  RecoveryRepairs, RecoveryTimer, RecoveryProductState,
}
use team_10_queue_serivce.Service.Recovery.Members.{
  RecoveredMembers, decline, backs, apply_recovered_active_right, decline_now,
  apply_recovered_pending_offer, apply_by_status, is_bad_membership, apply_recovery_membership,
  apply_memberships, named_right,
}
use team_10_queue_serivce.Oversell.{offer_units, offers_units, units_at}
use team_10_queue_serivce.Recovery.Claims.{
  AreRights, AreEntered, claimed_units, claimed_units-set_claimed, AreEntered-set_claimed,
}
use team_10_queue_serivce.Recovery.Units.{
  reserved_of, AreMembers, reserved_of-update, is_some-update, offer_units_none, right_units-backs,
  add_assoc, offer_units-some, offer_le, le_of, offer_units-elsewhere, unoffered, named_right-found,
}

module _ (p : ℕ) (by_token : List Right) where
  -- Product `p` has a row, and its reservation covers the claims and `n` more units.
  pub record Backed (acc : RecoveredMembers) (n : ℕ) : Type 0 where
    pub known : is_some (acc.products p) ≡ true
    pub entered : AreEntered acc.claims by_token
    pub enough : claimed_units p acc.claims by_token + n ≤ reserved_of (acc.products p)

  Backed-put :
      (acc : RecoveredMembers) (n n' q k : ℕ) (x y : RecoveryProductState)
      (claims : List (ℕ × Bool)) (timers : List RecoveryTimer) (repairs : RecoveryRepairs)
      → Backed acc n
      → acc.products q ≡ some x
      → y.reserved ≡ x.reserved + k
      → AreEntered claims by_token
      → claimed_units p claims by_token + n'
        ≤ claimed_units p acc.claims by_token + n + units_at q k p
      → Backed
          (record {
            products = update acc.products q (some y);
            claims = claims;
            timers = timers;
            repairs = repairs;
          })
          n'
  Backed-put acc n n' q k x y claims timers repairs h e r entered le = record {
    known = is_some-update acc.products p q y h.known;
    entered = entered;
    enough = rw (reserved_of-update acc.products p q k x y e r) (omega (arith, h.enough, le));
  }

  abbrev After : QueueMembership × RecoveredMembers → ℕ → Type 0
  After out n = Backed out.1 (n + offer_units p out.0)

  -- Other fields change, and the row that comes out is no offer of `p`.
  Backed-keep :
      (acc : RecoveredMembers) (n k : ℕ) (timers : List RecoveryTimer) (repairs : RecoveryRepairs)
      → Backed acc n
      → k ≡ 0
      → Backed (record acc { timers = timers; repairs = repairs }) (n + k)
  Backed-keep acc n k timers repairs h z = record {
    known = h.known;
    entered = h.entered;
    enough = omega (arith, h.enough, z);
  }

  decline-After :
      (now : ℕ) (m : QueueMembership) (acc : RecoveredMembers) (n : ℕ)
      → Backed acc n
      → After (decline now m acc) n
  decline-After now m acc n h = Backed-keep acc n _ acc.timers _ h (ground arith)

  apply_recovered_active_right-After :
      (now : ℕ) (m : QueueMembership) (right : Option Right) (deadline : Option ℕ)
      (x : RecoveryProductState) (acc : RecoveredMembers) (n : ℕ)
      → Backed acc n
      → AreRights by_token
      → m.status ≡ right_active
      → acc.products m.product_id ≡ some x
      → ((r : Right) → right ≡ some r → find_right r.token by_token ≡ some r)
      → After (apply_recovered_active_right now m right deadline x acc) n
  apply_recovered_active_right-After now m none deadline x acc n h good st e found =
      decline-After now m acc n h
  apply_recovered_active_right-After now m (some r) none x acc n h good st e found =
      decline-After now m acc n h
  apply_recovered_active_right-After now m (some r) (some d) x acc n h good st e found =
      elim (Bool-cases (backs m r)) [
        | inl b ↦ rw b (
            Backed-put acc n _ m.product_id m.quantity x _ _ _ _ h e refl
              (AreEntered-set_claimed r.token acc.claims by_token h.entered)
              (le_of _ _ n _ _ _
                (claimed_units-set_claimed p acc.claims by_token r.token r good (found r refl))
                (right_units-backs p m r b) (offer_units_none p m (rw st refl))))
        | inr b ↦ rw b (decline-After now m acc n h)
      ]

  abbrev OutOk : ℕ → QueueMembership × RecoveredMembers → Store → Type 0
  OutOk n out st = Unit {0} × After out n

  Triple-decline_now :
      (m : QueueMembership) (acc : RecoveredMembers) (n : ℕ)
      → Backed acc n
      → Triple Always (decline_now m acc) (OutOk n) Never
  Triple-decline_now m acc n h =
      Triple-clock _ λ now. Triple-pure _ λ st u. (tt, decline-After now m acc n h)

  Triple-offer :
      (m : QueueMembership) (units deadline : Option ℕ) (x : RecoveryProductState)
      (acc : RecoveredMembers) (n : ℕ)
      → Backed acc n
      → acc.products m.product_id ≡ some x
      → units ≡ m.available_quantity
      → Triple Always (apply_recovered_pending_offer m units deadline x acc) (OutOk n) Never
  Triple-offer m none deadline x acc n h e same = Triple-decline_now m acc n h
  Triple-offer m (some k) none x acc n h e same = Triple-decline_now m acc n h
  Triple-offer m (some k) (some d) x acc n h e same =
      Triple-if ((k == 0) || ltb m.quantity k) _ _ (λ b. Triple-decline_now m acc n h)
        λ b. Triple-pure _ λ st u. (
          tt,
          Backed-put acc n _ m.product_id k x _ _ _ _ h e refl h.entered
              (offer_le _ n _ _ (offer_units-some p m k same)),
        )

  unchanged :
      (m : QueueMembership) (acc : RecoveredMembers) (n : ℕ)
      → Backed acc n
      → is_offer_pending m.status ≡ false
      → Triple Always (pure (m, acc)) (OutOk n) Never
  unchanged m acc n h e =
      Triple-pure _
        λ st u. (tt, Backed-keep acc n _ acc.timers acc.repairs h (offer_units_none p m e))

  Triple-apply_by_status :
      (status : MembershipStatus) (now : ℕ) (m : QueueMembership) (x : RecoveryProductState)
      (acc : RecoveredMembers) (n : ℕ)
      → Backed acc n
      → AreRights by_token
      → status ≡ m.status
      → acc.products m.product_id ≡ some x
      → Triple Always (apply_by_status status now by_token m x acc) (OutOk n) Never
  Triple-apply_by_status queued now m x acc n h good st e = Triple-pure _ λ s u. (
    tt,
    Backed-put acc n _ m.product_id 0 x _ _ _ _ h e (omega arith) h.entered
        (offer_le _ n _ _ (rw (offer_units_none p m (unoffered st refl)) (omega arith))),
  )
  Triple-apply_by_status right_active now m x acc n h good st e = Triple-pure _ λ s u. (
    tt,
    apply_recovered_active_right-After now m (named_right m.current_token by_token) m.expires_at x
        acc n h good (sym st) e (named_right-found by_token m.current_token),
  )
  Triple-apply_by_status offer_pending now m x acc n h good st e =
      Triple-offer m m.available_quantity m.expires_at x acc n h e refl
  Triple-apply_by_status declined now m x acc n h good st e =
      unchanged m acc n h (unoffered st refl)
  Triple-apply_by_status purchased now m x acc n h good st e =
      unchanged m acc n h (unoffered st refl)
  Triple-apply_by_status sold_out now m x acc n h good st e =
      unchanged m acc n h (unoffered st refl)
  Triple-apply_by_status (MembershipStatus.other k) now m x acc n h good st e =
      unchanged m acc n h (unoffered st refl)

  Triple-apply_recovery_membership :
      (now : ℕ) (m : QueueMembership) (acc : RecoveredMembers) (n : ℕ)
      → Backed acc n
      → AreRights by_token
      → is_bad_membership m ≡ false
      → Triple Always (apply_recovery_membership now by_token m acc) (OutOk n) Never
  unfolding apply_recovery_membership
  Triple-apply_recovery_membership now m acc n h good ok =
      rw ok (elim (Option-cases (acc.products m.product_id)) [
        | inl e ↦ rw e (
            Triple-pure _ λ st u. (
              tt,
              Backed-keep acc n _ acc.timers _ h (offer_units-elsewhere acc.products p m h.known e),
            ))
        | inr (x, e) ↦ rw e (Triple-apply_by_status m.status now m x acc n h good refl e)
      ])

  -- The loop keeps the reservation of `p` above the claims and the offers of `p`.
  pub Triple-apply_memberships :
      (now : ℕ) (ms : List QueueMembership) (acc : RecoveredMembers) (n : ℕ)
      → Backed acc n
      → AreRights by_token
      → AreMembers ms
      → Triple Always
          (apply_memberships now by_token ms acc)
          (λ out st. Unit {0} × Backed out.1 (n + offers_units p out.0))
          Never
  unfolding apply_memberships
  Triple-apply_memberships now [] acc n h good ok =
      Triple-pure _ λ st u. (tt, Backed-keep acc n 0 acc.timers acc.repairs h refl)
  Triple-apply_memberships now (m ∷ ms) acc n h good ok =
      Triple-bind _
        (λ out. do rest ← apply_memberships now by_token ms out.1; pure (out.0 ∷ rest.0, rest.1))
        (Triple-apply_recovery_membership now m acc n h good ok.0)
        λ out. Triple-given _ λ k.
          Triple-bind _ (λ rest. pure (out.0 ∷ rest.0, rest.1))
            (Triple-apply_memberships now ms out.1 (n + offer_units p out.0) k good ok.1)
            λ rest. Triple-given _ λ b.
              Triple-pure (out.0 ∷ rest.0, rest.1)
                λ st u. (
                  tt,
                  subst (λ k. Backed rest.1 k)
                      (sym (add_assoc n (offer_units p out.0) (offers_units p rest.0))) b,
                )
