-- ===== src/Service/Recovery/Members.antt =====
-- recovery.go: the memberships of a snapshot.
use team_10_queue_serivce.Base.{
  ℕ, ◌+◌, Bool, not, ◌||◌, ◌&&◌, List, [], ◌∷◌, ◌++◌, Option, none, some, ltb, ◌==◌, if◌then◌else◌,
  update,
}
use team_10_queue_serivce.Models.Status.{
  MembershipStatus, queued, right_active, offer_pending, declined, membership_valid, is_active,
}
use team_10_queue_serivce.Models.{QueueMembership, Right, empty_id}
use team_10_queue_serivce.World.{M, pure, time_now, ◌>>=◌}
use team_10_queue_serivce.Postgres.Rows.{find_right}
use team_10_queue_serivce.Service.Recovery.Rights.{
  RecoveryProductState, RecoveryTimer, RecoveryRepairs, Products, skip, set_claimed,
}

-- What the loop over the memberships changes.
pub record RecoveredMembers : Type 0 where
  pub products : Products
  pub claims : List (ℕ × Bool)
  pub timers : List RecoveryTimer
  pub repairs : RecoveryRepairs

abbrev pub timed : QueueMembership → ℕ → RecoveredMembers → RecoveredMembers
timed m deadline acc = record acc {
  timers =
      acc.timers
      ++ record { product_id = m.product_id; user_id = m.user_id; deadline = deadline } ∷ [];
}

-- settleRecoveredMembership
abbrev pub settle_recovered_membership : ℕ → QueueMembership → QueueMembership
settle_recovered_membership now m = record m {
  status = declined;
  available_quantity = none;
  current_token = none;
  expires_at = none;
  updated_at = now;
}

-- The membership is settled, and written to PostgreSQL by the repairs.
abbrev pub decline : ℕ → QueueMembership → RecoveredMembers → QueueMembership × RecoveredMembers
decline now m acc = (
  settle_recovered_membership now m,
  record acc {
    repairs = record acc.repairs {
      declined_members = acc.repairs.declined_members ++ settle_recovered_membership now m ∷ [];
    };
  },
)

abbrev pub reserve : ℕ → ℕ → RecoveryProductState → RecoveredMembers → RecoveredMembers
reserve p n product acc = record acc {
  products = update acc.products p (some (record product { reserved = product.reserved + n }));
}

-- Whether the right that the membership names backs it.
abbrev pub backs : QueueMembership → Right → Bool
backs m right =
    is_active right.status
    && (right.user_id == m.user_id)
    && (right.product_id == m.product_id)
    && (right.quantity == m.quantity)

abbrev pub named_right : Option ℕ → List Right → Option Right
named_right none by_token = none
named_right (some t) by_token = find_right t by_token

-- applyRecoveredActiveRight, with the right that the membership names and its deadline.
abbrev pub apply_recovered_active_right :
    ℕ
    → QueueMembership
    → Option Right
    → Option ℕ
    → RecoveryProductState
    → RecoveredMembers
    → QueueMembership × RecoveredMembers
apply_recovered_active_right now m (some right) (some deadline) product acc =
    if backs m right
    then (
      m,
      timed m deadline (record (reserve m.product_id m.quantity product acc) {
        claims = set_claimed right.token acc.claims;
      }),
    )
    else decline now m acc
apply_recovered_active_right now m (some right) none product acc = decline now m acc
apply_recovered_active_right now m none deadline product acc = decline now m acc

abbrev pub decline_now : QueueMembership → RecoveredMembers → M (QueueMembership × RecoveredMembers)
decline_now m acc = do now ← time_now; pure (decline now m acc)

-- applyRecoveredPendingOffer, with the offer's units and deadline. It reads the clock itself.
abbrev pub apply_recovered_pending_offer :
    QueueMembership
    → Option ℕ
    → Option ℕ
    → RecoveryProductState
    → RecoveredMembers
    → M (QueueMembership × RecoveredMembers)
apply_recovered_pending_offer m (some units) (some deadline) product acc =
    if (units == 0) || ltb m.quantity units
    then decline_now m acc
    else pure (m, timed m deadline (reserve m.product_id units product acc))
apply_recovered_pending_offer m (some units) none product acc = decline_now m acc
apply_recovered_pending_offer m none deadline product acc = decline_now m acc

abbrev pub enqueued : QueueMembership → RecoveryProductState → RecoveredMembers → RecoveredMembers
enqueued m product acc = record acc {
  products =
      update acc.products m.product_id
        (some (record product { queued_users = product.queued_users ++ m.user_id ∷ [] }));
}

-- The switch on the status.
abbrev pub apply_by_status :
    MembershipStatus
    → ℕ
    → List Right
    → QueueMembership
    → RecoveryProductState
    → RecoveredMembers
    → M (QueueMembership × RecoveredMembers)
apply_by_status queued now by_token m product acc = pure (m, timed m now (enqueued m product acc))
apply_by_status right_active now by_token m product acc = pure (
    apply_recovered_active_right now m (named_right m.current_token by_token) m.expires_at product
      acc)
apply_by_status offer_pending now by_token m product acc =
    apply_recovered_pending_offer m m.available_quantity m.expires_at product acc
apply_by_status _ now by_token m product acc = pure (m, acc)

abbrev pub skip_member : RecoveredMembers → RecoveredMembers
skip_member acc = record acc { repairs = skip acc.repairs }

abbrev pub is_bad_membership : QueueMembership → Bool
is_bad_membership m =
    (m.user_id == empty_id) || (m.quantity == 0) || not (membership_valid m.status)

abbrev pub apply_known :
    ℕ
    → List Right
    → QueueMembership
    → Option RecoveryProductState
    → RecoveredMembers
    → M (QueueMembership × RecoveredMembers)
apply_known now by_token m none acc = pure (m, skip_member acc)
apply_known now by_token m (some product) acc = apply_by_status m.status now by_token m product acc

-- applyRecoveryMembership
unfoldable pub apply_recovery_membership :
    ℕ → List Right → QueueMembership → RecoveredMembers → M (QueueMembership × RecoveredMembers)
apply_recovery_membership now by_token m acc =
    if is_bad_membership m
    then pure (m, skip_member acc)
    else apply_known now by_token m (acc.products m.product_id) acc

-- The loop of buildRecoveryState.
unfoldable pub apply_memberships :
    ℕ
    → List Right
    → List QueueMembership
    → RecoveredMembers
    → M (List QueueMembership × RecoveredMembers)
unfolding apply_recovery_membership
apply_memberships now by_token [] acc = pure ([], acc)
apply_memberships now by_token (m ∷ ms) acc = do
  (m', acc') ← apply_recovery_membership now by_token m acc
  (ms', acc'') ← apply_memberships now by_token ms acc'
  pure (m' ∷ ms', acc'')
