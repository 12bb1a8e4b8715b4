-- ===== src/Redis/Claims.antt =====
-- Claims on memberships, and slots: ClaimMembership, releaseMembershipClaim and occupyQueueSlot of
-- cache.go.
use team_10_queue_serivce.Base.{
  ℕ, ◌+◌, ◌≤◌, ◌<◌, ◌≡◌, ◌≢◌, refl, subst, true, false, ◌⊎◌, some, arith, leb, inl, inr, Bool-cases,
  ==_refl, length, contains,
}
use team_10_queue_serivce.Redis.State.{Cache}
use team_10_queue_serivce.Redis.Scripts.{
  refused, claim_set_nx, release_membership_claim_script, is_live, occupy_queue_slot_script,
}

module _ (p u owner now ttl : ℕ) (c c' : Cache)
    (h : claim_set_nx p u owner now ttl c ≡ (true, c')) where
  entry : c'.claims p u ≡ some (record { owner = owner; until = now + ttl })
  unfolding claim_set_nx
  entry = elim (Bool-cases (is_live now (c.claims p u))) [
    | inl e ↦ cc
    | inr e ↦
        subst (λ out. out.1.claims p u ≡ some (record { owner = owner; until = now + ttl })) h
          (rw (claim_set_nx, e, ==_refl p, ==_refl u) refl)
  ]

  -- Before a claim that was won runs out, another owner can neither win it nor release it.
  pub claim_set_nx-excludes :
      (owner' now' ttl' : ℕ)
      → owner ≢ owner'
      → now' < now + ttl
      → (claim_set_nx p u owner' now' ttl' c' ≡ (false, c'))
        × (release_membership_claim_script p u owner' now' c' ≡ c')
  unfolding claim_set_nx release_membership_claim_script
  claim_set_nx-excludes owner' now' ttl' n le = (
    rw (claim_set_nx, entry) (ground arith),
    rw (release_membership_claim_script, entry) (ground arith),
  )

-- The limit on a user's slots holds after a request for one if it held before; a request that is
-- refused changes nothing, and after any other the user has the slot.
pub occupy_queue_slot_script-limit :
    (u p limit : ℕ) (c : Cache)
    → length (c.slots u) ≤ limit
    → let out = occupy_queue_slot_script u p limit c in
      (length (out.1.slots u) ≤ limit)
      × (((out.0 ≡ refused) × (out.1 ≡ c))
          ⊎ ((out.0 ≢ refused) × (contains p (out.1.slots u) ≡ true)))
unfolding occupy_queue_slot_script
occupy_queue_slot_script-limit u p limit c h = elim (Bool-cases (contains p (c.slots u))) [
  | inl e ↦ rw (occupy_queue_slot_script, e) (h, inr (λ x. cc, e))
  | inr e ↦ elim (Bool-cases (leb limit (length (c.slots u)))) [
    | inl f ↦ rw (occupy_queue_slot_script, e, f) (h, inl (refl, refl))
    | inr f ↦
        rw (occupy_queue_slot_script, e, f, ==_refl u, e)
          (ground (arith, f), inr (λ x. cc, rw (==_refl p) refl))
  ]
]
