-- ===== src/Postgres/Once.antt =====
-- durable.go, UseRightTx and ExpireRightAndUpsertMembershipTx: a right ends once.
use team_10_queue_serivce.Base.{
  ℕ, ◌≡◌, ◌≢◌, ◌⊎◌, ◌∙◌, ap, refl, true, false, ◌&&◌, Option, none, some, arith, inl, inr, ltb,
  subst, Bool-cases, Option-cases, ==_refl,
}
use team_10_queue_serivce.Models.Status.{RightStatus, active, expired, used}
use team_10_queue_serivce.Models.{QueueMembership, Right, token_used, token_expired}
use team_10_queue_serivce.Models.Result.{ok, err}
use team_10_queue_serivce.Models.Result.OnOk.{OnOk, OnOk-bind}
use team_10_queue_serivce.Postgres.State.{Durable}
use team_10_queue_serivce.Postgres.Rows.{
  find_right, get_right_by_token, upsert_membership, references_right, expire_row, use_row,
  decrement_stock, set_active,
}
use team_10_queue_serivce.Postgres.Rights.{
  Transition, use_right, expire_right_and_upsert_membership, use_by_status, expire_by_status, pay,
  unchanged, has_order, is_listed,
}
use team_10_queue_serivce.Postgres.Found.{find_right-token, find_right-OnOk, find_right-set_active}

-- A paid right is the row that the transaction leaves.
pub record IsPaid (token order : ℕ) (t : Transition) : Type 0 where
  pub kept : find_right token t.tables.rights ≡ some t.right
  pub is_used : t.right.status ≡ used
  pub by_order : has_order order t.right.order_id ≡ true

pay-IsPaid :
    (event order now : ℕ) (r : Right) (d : Durable)
    → find_right r.token d.rights ≡ some r
    → r.status ≡ active
    → OnOk (IsPaid r.token order) (pay event order now r d)
pay-IsPaid event order now r d e es =
    elim (Option-cases (decrement_stock now r.product_id r.quantity d.stocks)) [
      | inl f ↦ rw (f, pay) tt
      | inr (ss, f) ↦ elim (Bool-cases (is_listed r.token d.outbox)) [
        | inl g ↦ rw (f, g, pay) tt
        | inr g ↦
            rw (f, g, pay)
              (record {
                kept =
                    find_right-set_active (use_row order now) (λ _. refl) r.token d.rights r e es;
                is_used = refl;
                by_order = ==_refl order;
              })
      ]
    ]

use_by_status-IsPaid :
    (status : RightStatus) (event order now token : ℕ) (r : Right) (d : Durable)
    → find_right token d.rights ≡ some r
    → r.status ≡ status
    → OnOk (IsPaid token order) (use_by_status status event order now r d)
use_by_status-IsPaid used event order now token r d e es =
    elim (Bool-cases (has_order order r.order_id)) [
      | inl f ↦ rw f (record { kept = e; is_used = es; by_order = f })
      | inr f ↦ rw f tt
    ]
use_by_status-IsPaid expired event order now token r d e es = tt
use_by_status-IsPaid active event order now token r d e es =
    elim (Bool-cases (ltb now r.expires_at)) [
      | inl f ↦ rw f (
          subst
            (λ t. find_right t d.rights ≡ some r → OnOk (IsPaid t order) (pay event order now r d))
            (find_right-token token d.rights e) (λ e'. pay-IsPaid event order now r d e' es) e)
      | inr f ↦ rw f tt
    ]
use_by_status-IsPaid (RightStatus.other s) event order now token r d e es = tt

pub use_right-IsPaid :
    (event token order now : ℕ) (d : Durable)
    → OnOk (IsPaid token order) (use_right event token order now d)
unfolding use_right
use_right-IsPaid event token order now d =
    OnOk-bind (λ r. find_right token d.rights ≡ some r) _ (get_right_by_token token d)
      (λ r. use_by_status r.status event order now r d) (find_right-OnOk token d)
      (λ r e. use_by_status-IsPaid r.status event order now token r d e refl)

-- An expired right is the row that the transaction leaves.
record IsExpired (token : ℕ) (t : Transition) : Type 0 where
  pub kept : find_right token t.tables.rights ≡ some t.right
  pub is_settled : (t.right.status ≡ used) ⊎ (t.right.status ≡ expired)

upsert_membership-rights :
    (now : ℕ) (m : QueueMembership) (d : Durable)
    → OnOk (λ d'. d'.rights ≡ d.rights) (upsert_membership now m d)
unfolding upsert_membership
upsert_membership-rights now m d =
    elim (Bool-cases (ltb 0 m.quantity && references_right m.current_token d.rights)) [
      | inl e ↦ rw (e, upsert_membership) refl
      | inr e ↦ rw (e, upsert_membership) tt
    ]

expire-IsExpired :
    (now : ℕ) (r : Right) (m : QueueMembership) (d : Durable)
    → find_right r.token d.rights ≡ some r
    → r.status ≡ active
    → OnOk (IsExpired r.token) (expire_by_status active now r m d)
expire-IsExpired now r m d e es =
    OnOk-bind (λ d'. d'.rights ≡ set_active expire_row r.token d.rights) _
      (upsert_membership now m (record d { rights = set_active expire_row r.token d.rights })) _
      (upsert_membership-rights now m
        (record d { rights = set_active expire_row r.token d.rights }))
      λ d' h. record {
        kept =
            ap (find_right r.token) h
            ∙ find_right-set_active expire_row (λ _. refl) r.token d.rights r e es;
        is_settled = inr refl;
      }

expire_by_status-IsExpired :
    (status : RightStatus) (now token : ℕ) (r : Right) (m : QueueMembership) (d : Durable)
    → find_right token d.rights ≡ some r
    → r.status ≡ status
    → OnOk (IsExpired token) (expire_by_status status now r m d)
expire_by_status-IsExpired used now token r m d e es = record { kept = e; is_settled = inl es }
expire_by_status-IsExpired expired now token r m d e es = record { kept = e; is_settled = inr es }
expire_by_status-IsExpired active now token r m d e es =
    subst
      (λ t. find_right t d.rights ≡ some r → OnOk (IsExpired t) (expire_by_status active now r m d))
      (find_right-token token d.rights e) (λ e'. expire-IsExpired now r m d e' es) e
expire_by_status-IsExpired (RightStatus.other s) now token r m d e es = tt

expire_right-IsExpired :
    (now token : ℕ) (m : QueueMembership) (d : Durable)
    → OnOk (IsExpired token) (expire_right_and_upsert_membership now token m d)
unfolding expire_right_and_upsert_membership
expire_right-IsExpired now token m d =
    OnOk-bind (λ r. find_right token d.rights ≡ some r) _ (get_right_by_token token d)
      (λ r. expire_by_status r.status now r m d) (find_right-OnOk token d)
      (λ r e. expire_by_status-IsExpired r.status now token r m d e refl)

has_order-other :
    (order order' : ℕ) (o : Option ℕ)
    → has_order order o ≡ true
    → order ≢ order'
    → has_order order' o ≡ false
has_order-other order order' none h n = cc
has_order-other order order' (some x) h n = ground arith

module _ (event token order now : ℕ) (d : Durable) (t : Transition)
    (h : use_right event token order now d ≡ ok t) where
  paid : IsPaid token order t
  paid = subst (OnOk (IsPaid token order)) h (use_right-IsPaid event token order now d)

  -- After a payment that went through, the same payment at any other time answers with the same right
  -- and changes no table, a payment of the right by another order is refused, and an expiration
  -- answers with the paid right and changes no table.
  pub use_right-settled :
      (event' order' now' : ℕ) (m : QueueMembership)
      → order ≢ order'
      → (use_right event' token order now' t.tables ≡ unchanged t.right t.tables)
        × (use_right event' token order' now' t.tables ≡ err token_used)
        × (expire_right_and_upsert_membership now' token m t.tables ≡ unchanged t.right t.tables)
  unfolding use_right expire_right_and_upsert_membership get_right_by_token
  use_right-settled event' order' now' m n = (
    rw (use_right, get_right_by_token, paid.kept, paid.is_used, paid.by_order) refl,
    rw
        (
          use_right,
          get_right_by_token,
          paid.kept,
          paid.is_used,
          has_order-other order order' t.right.order_id paid.by_order n,
        )
        refl,
    rw (expire_right_and_upsert_membership, get_right_by_token, paid.kept, paid.is_used) refl,
  )

module _ (now token : ℕ) (m : QueueMembership) (d : Durable) (t : Transition)
    (h : expire_right_and_upsert_membership now token m d ≡ ok t) where
  ended : IsExpired token t
  ended = subst (OnOk (IsExpired token)) h (expire_right-IsExpired now token m d)

  -- After an expiration that went through, expiring the right again, with any membership, answers with
  -- the same right and changes no table, so that its units are freed once, and no order can pay it at
  -- any time, if it was not already paid.
  pub expire_right-settled :
      (event order now' : ℕ) (m' : QueueMembership)
      → t.right.status ≢ used
      → (expire_right_and_upsert_membership now' token m' t.tables ≡ unchanged t.right t.tables)
        × (use_right event token order now' t.tables ≡ err token_expired)
  unfolding use_right expire_right_and_upsert_membership get_right_by_token
  expire_right-settled event order now' m' n = elim ended.is_settled [
    | inl e ↦ absurd (n e)
    | inr e ↦ (
      rw (expire_right_and_upsert_membership, get_right_by_token, ended.kept, e) refl,
      rw (use_right, get_right_by_token, ended.kept, e) refl,
    )
  ]
