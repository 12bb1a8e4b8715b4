-- ===== src/Oversell/Transactions.antt =====
-- What the transactions of PostgreSQL do to the units of a product.
use team_10_queue_serivce.Base.{
  ℕ, ◌+◌, ◌≤◌, ◌≡◌, refl, false, ◌&&◌, some, arith, inl, inr, ltb, ◌∙◌, if◌then◌else◌, Bool-cases,
  Option-cases,
}
use team_10_queue_serivce.Models.Status.{RightStatus, active, expired, used}
use team_10_queue_serivce.Models.{QueueMembership, Right}
use team_10_queue_serivce.Models.Result.OnOk.{OnOk, OnOk-bind, OnOk-mono}
use team_10_queue_serivce.Postgres.Found.{find_right-token, find_right-OnOk}
use team_10_queue_serivce.Postgres.State.{Durable}
use team_10_queue_serivce.Postgres.Rows.{
  find_right, get_right_by_token, insert_right, upsert_membership, references_right, set_active,
  expire_row, decrement_stock,
}
use team_10_queue_serivce.Postgres.Rights.{
  Transition, issue_right_and_upsert_membership, use_right, expire_right_and_upsert_membership,
  use_by_status, expire_by_status, is_listed, pay, unchanged, has_order,
}
use team_10_queue_serivce.Oversell.{Unsaved, right_units, offer_units, held, physical, units_at}
use team_10_queue_serivce.Oversell.Held.{
  rights_units-append, rights_units-expire, rights_units-use, offers_units-upsert-le,
  offers_units-purchase-le, count_of-decrement,
}

-- `n` more units are held than before, at most, and the physical stock is the same.
pub record HoldsMore (total : Unsaved) (p n : ℕ) (d d' : Durable) : Type 0 where
  pub more : held p d' ≤ held p d + n
  pub same_stock : physical total p d' ≡ physical total p d

-- A payment takes no more from the physical stock than it takes from what is held.
pub record Pays (total : Unsaved) (p : ℕ) (d : Durable) (t : Transition) : Type 0 where
  pub covered : held p t.tables + physical total p d ≤ held p d + physical total p t.tables

-- An expired right stops holding its units; a right that was settled before changes nothing.
abbrev freed : ℕ → Transition → ℕ
freed p t = if t.transitioned then units_at t.right.product_id t.right.quantity p else 0

pub record Frees (total : Unsaved) (p n token : ℕ) (d : Durable) (t : Transition) : Type 0 where
  pub row : Right
  pub is_found : find_right token d.rights ≡ some row
  pub same_product : t.right.product_id ≡ row.product_id
  pub same_quantity : t.right.quantity ≡ row.quantity
  pub less : held p t.tables + freed p t ≤ held p d + n
  pub same_stock : physical total p t.tables ≡ physical total p d
  pub unchanged_tables : t.transitioned ≡ false → t.tables ≡ d

module _ (total : Unsaved) (p : ℕ) where
  HoldsMore-trans :
      {m n : ℕ} {d d' d'' : Durable}
      → HoldsMore total p m d d'
      → HoldsMore total p n d' d''
      → HoldsMore total p (m + n) d d''
  HoldsMore-trans h k = record { more = omega arith; same_stock = k.same_stock ∙ h.same_stock }

  insert_right-HoldsMore :
      (r : Right) (d : Durable) → OnOk (HoldsMore total p (right_units p r) d) (insert_right r d)
  unfolding insert_right
  insert_right-HoldsMore r d = elim (Option-cases (find_right r.token d.rights)) [
    | inr (old, e) ↦ rw (e, insert_right) tt
    | inl e ↦ elim (Bool-cases (ltb 0 r.quantity)) [
      | inl f ↦
          rw (e, f, insert_right)
            (record { more = omega (arith, rights_units-append p d.rights r); same_stock = refl })
      | inr f ↦ rw (e, f, insert_right) tt
    ]
  ]

  pub upsert-HoldsMore :
      (now : ℕ) (m : QueueMembership) (d : Durable)
      → OnOk (HoldsMore total p (offer_units p m) d) (upsert_membership now m d)
  unfolding upsert_membership
  upsert-HoldsMore now m d =
      elim (Bool-cases (ltb 0 m.quantity && references_right m.current_token d.rights)) [
        | inl e ↦
            rw (e, upsert_membership)
              (record {
                more =
                    omega
                      (arith, offers_units-upsert-le p now d.next_membership_id m d.memberships);
                same_stock = refl;
              })
        | inr e ↦ rw (e, upsert_membership) tt
      ]

  -- A right and its membership, written together, hold what they say.
  pub issue_right-HoldsMore :
      (now : ℕ) (r : Right) (m : QueueMembership) (d : Durable)
      → OnOk
          (HoldsMore total p (right_units p r + offer_units p m) d)
          (issue_right_and_upsert_membership now r m d)
  unfolding issue_right_and_upsert_membership
  issue_right-HoldsMore now r m d =
      OnOk-bind (HoldsMore total p (right_units p r) d) _ (insert_right r d)
        (upsert_membership now m) (insert_right-HoldsMore r d)
        λ d' h.
          OnOk-mono (HoldsMore total p (offer_units p m) d') _ (upsert_membership now m d')
            (λ d'' k. HoldsMore-trans h k) (upsert-HoldsMore now m d')

  paid :
      (event order now token : ℕ) (r : Right) (d : Durable)
      → find_right token d.rights ≡ some r
      → r.token ≡ token
      → r.status ≡ active
      → OnOk (Pays total p d) (pay event order now r d)
  paid event order now token r d e et es =
      elim (Option-cases (decrement_stock now r.product_id r.quantity d.stocks)) [
        | inl f ↦ rw (f, pay) tt
        | inr (ss, f) ↦ elim (Bool-cases (is_listed r.token d.outbox)) [
          | inl g ↦ rw (f, g, pay) tt
          | inr g ↦
              rw (f, g, pay)
                (record {
                  covered = ground (
                    arith,
                    rights_units-use p r.token order now d.rights r,
                    offers_units-purchase-le p now r.product_id r.user_id r.token d.memberships,
                    count_of-decrement total p now r.product_id r.quantity d.stocks ss f,
                  );
                })
        ]
      ]

  unchanged-Pays : (r : Right) (d : Durable) → OnOk (Pays total p d) (unchanged r d)
  unchanged-Pays r d = record { covered = omega arith }

  paid_by_status :
      (status : RightStatus) (event order now token : ℕ) (r : Right) (d : Durable)
      → find_right token d.rights ≡ some r
      → r.status ≡ status
      → OnOk (Pays total p d) (use_by_status status event order now r d)
  paid_by_status used event order now token r d e es =
      elim (Bool-cases (has_order order r.order_id)) [
        | inl f ↦ rw f (unchanged-Pays r d)
        | inr f ↦ rw f tt
      ]
  paid_by_status expired event order now token r d e es = tt
  paid_by_status active event order now token r d e es = elim (Bool-cases (ltb now r.expires_at)) [
    | inl f ↦ rw f (paid event order now token r d e (find_right-token token d.rights e) es)
    | inr f ↦ rw f tt
  ]
  paid_by_status (RightStatus.other s) event order now token r d e es = tt

  -- Every payment that goes through is covered by what its right held.
  pub use_right-Pays :
      (event token order now : ℕ) (d : Durable)
      → OnOk (Pays total p d) (use_right event token order now d)
  unfolding use_right
  use_right-Pays event token order now d =
      OnOk-bind (λ r. find_right token d.rights ≡ some r) _ (get_right_by_token token d)
        (λ r. use_by_status r.status event order now r d) (find_right-OnOk token d)
        (λ r e. paid_by_status r.status event order now token r d e refl)

  unchanged-Frees :
      {n : ℕ} (token : ℕ) (r : Right) (d : Durable)
      → find_right token d.rights ≡ some r
      → OnOk (Frees total p n token d) (unchanged r d)
  unchanged-Frees token r d e = record {
    row = r;
    is_found = e;
    same_product = refl;
    same_quantity = refl;
    less = omega arith;
    same_stock = refl;
    unchanged_tables = λ f. refl;
  }

  freed_active :
      (now token : ℕ) (r : Right) (m : QueueMembership) (d : Durable)
      → find_right token d.rights ≡ some r
      → r.token ≡ token
      → r.status ≡ active
      → OnOk (Frees total p (offer_units p m) token d) (expire_by_status active now r m d)
  freed_active now token r m d e et es =
      OnOk-bind (HoldsMore total p (offer_units p m) expired_tables) _
        (upsert_membership now m expired_tables) _ (upsert-HoldsMore now m expired_tables)
        λ d' h. record {
          row = r;
          is_found = e;
          same_product = refl;
          same_quantity = refl;
          less = ground (arith, h.more, rights_units-expire p r.token d.rights r);
          same_stock = h.same_stock;
          unchanged_tables = λ f. cc;
        }
    where
      expired_tables : Durable
      expired_tables = record d { rights = set_active expire_row r.token d.rights }

  freed_by_status :
      (status : RightStatus) (now token : ℕ) (r : Right) (m : QueueMembership) (d : Durable)
      → find_right token d.rights ≡ some r
      → r.status ≡ status
      → OnOk (Frees total p (offer_units p m) token d) (expire_by_status status now r m d)
  freed_by_status used now token r m d e es = unchanged-Frees token r d e
  freed_by_status expired now token r m d e es = unchanged-Frees token r d e
  freed_by_status active now token r m d e es =
      freed_active now token r m d e (find_right-token token d.rights e) es
  freed_by_status (RightStatus.other s) now token r m d e es = tt

  -- Only the transition that finds the right active frees its units, and it frees all of them.
  pub expire_right-Frees :
      (now token : ℕ) (m : QueueMembership) (d : Durable)
      → OnOk
          (Frees total p (offer_units p m) token d)
          (expire_right_and_upsert_membership now token m d)
  unfolding expire_right_and_upsert_membership
  expire_right-Frees now token m d =
      OnOk-bind (λ r. find_right token d.rights ≡ some r) _ (get_right_by_token token d)
        (λ r. expire_by_status r.status now r m d) (find_right-OnOk token d)
        (λ r e. freed_by_status r.status now token r m d e refl)
