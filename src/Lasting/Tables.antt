-- ===== src/Lasting/Tables.antt =====
-- The transactions of durable.go keep what each of their statements keeps.
use team_10_queue_serivce.Base.{
  ℕ, ◌≡◌, refl, sym, subst, ◌&&◌, List, [], ◌∷◌, inl, inr, ltb, Bool-cases, Option-cases,
}
use team_10_queue_serivce.Models.Status.{RightStatus, active, expired, used}
use team_10_queue_serivce.Models.{ProductStock, QueueMembership, Right}
use team_10_queue_serivce.Models.Result.{Result, ok, err}
use team_10_queue_serivce.Models.Result.OnOk.{OnOk, OnOk-bind, OnOk-mono}
use team_10_queue_serivce.Postgres.State.{Durable}
use team_10_queue_serivce.Postgres.Rows.{
  find_right, get_right_by_token, insert_right, upsert_membership, references_right, find_stock,
  save_initial_stock, expire_rights, expire_row, use_row, decrement_stock, set_active,
}
use team_10_queue_serivce.Postgres.Rights.{
  Transition, issue_right_and_upsert_membership, use_right, use_by_status, pay, is_listed,
  has_order, expire_right_and_upsert_membership, expire_by_status,
}
use team_10_queue_serivce.Lasting.{IsLasting}

pub upsert_membership-rights :
    (now : ℕ) (m : QueueMembership) (d : Durable)
    → OnOk (λ d'. d'.rights ≡ d.rights) (upsert_membership now m d)
unfolding upsert_membership
upsert_membership-rights now m d =
    elim (Bool-cases (ltb 0 m.quantity && references_right m.current_token d.rights)) [
      | inl e ↦ rw (e, upsert_membership) refl
      | inr e ↦ rw (e, upsert_membership) tt
    ]

pub save_initial_stock-rights :
    (stock : ProductStock) (d : Durable) → (save_initial_stock stock d).rights ≡ d.rights
unfolding save_initial_stock
save_initial_stock-rights stock d = elim (Option-cases (find_stock stock.product_id d.stocks)) [
  | inl e ↦ rw (e, save_initial_stock) refl
  | inr (x, e) ↦ rw (e, save_initial_stock) refl
]

OnOk-any : {A : Type 0} (r : Result A) → OnOk (λ _. Unit) r
OnOk-any (ok a) = tt
OnOk-any (err e) = tt

module _ (K : List Right → Type 0) (lasts : IsLasting K) where
  abbrev Keeps : Durable → Type 0
  Keeps d = K d.rights

  pub upsert_membership-Keeps :
      (now : ℕ) (m : QueueMembership) (d : Durable)
      → Keeps d
      → OnOk Keeps (upsert_membership now m d)
  upsert_membership-Keeps now m d h =
      OnOk-mono _ Keeps (upsert_membership now m d) (λ d' e. subst K (sym e) h)
        (upsert_membership-rights now m d)

  pub save_initial_stock-Keeps :
      (stock : ProductStock) (d : Durable) → Keeps d → Keeps (save_initial_stock stock d)
  save_initial_stock-Keeps stock d h = subst K (sym (save_initial_stock-rights stock d)) h

  insert_right-Keeps : (r : Right) (d : Durable) → Keeps d → OnOk Keeps (insert_right r d)
  unfolding insert_right
  insert_right-Keeps r d h = elim (Option-cases (find_right r.token d.rights)) [
    | inr (x, e) ↦ rw (e, insert_right) tt
    | inl e ↦ elim (Bool-cases (ltb 0 r.quantity)) [
      | inl f ↦ rw (e, f, insert_right) (lasts.inserted r d.rights e h)
      | inr f ↦ rw (e, f, insert_right) tt
    ]
  ]

  pub issue_right-Keeps :
      (now : ℕ) (r : Right) (m : QueueMembership) (d : Durable)
      → Keeps d
      → OnOk Keeps (issue_right_and_upsert_membership now r m d)
  unfolding issue_right_and_upsert_membership
  issue_right-Keeps now r m d h =
      OnOk-bind Keeps Keeps (insert_right r d) (λ d'. upsert_membership now m d')
        (insert_right-Keeps r d h) (λ d' k. upsert_membership-Keeps now m d' k)

  pub expire_rights-Keeps : (ts : List ℕ) (d : Durable) → Keeps d → Keeps (expire_rights ts d)
  unfolding expire_rights
  expire_rights-Keeps [] d h = h
  expire_rights-Keeps (t ∷ ts) d h =
      expire_rights-Keeps ts (record d { rights = set_active expire_row t d.rights })
        (lasts.changed expire_row (λ _. refl) t d.rights h)

  abbrev KeepsTables : Transition → Type 0
  KeepsTables t = Keeps t.tables

  pay-Keeps :
      (event order now : ℕ) (r : Right) (d : Durable)
      → Keeps d
      → OnOk KeepsTables (pay event order now r d)
  pay-Keeps event order now r d h =
      elim (Option-cases (decrement_stock now r.product_id r.quantity d.stocks)) [
        | inl e ↦ rw (e, pay) tt
        | inr (ss, e) ↦ elim (Bool-cases (is_listed r.token d.outbox)) [
          | inl f ↦ rw (e, f, pay) tt
          | inr f ↦
              rw (e, f, pay) (lasts.changed (use_row order now) (λ _. refl) r.token d.rights h)
        ]
      ]

  use_by_status-Keeps :
      (status : RightStatus) (event order now : ℕ) (r : Right) (d : Durable)
      → Keeps d
      → OnOk KeepsTables (use_by_status status event order now r d)
  use_by_status-Keeps used event order now r d h = elim (Bool-cases (has_order order r.order_id)) [
    | inl e ↦ rw e h
    | inr e ↦ rw e tt
  ]
  use_by_status-Keeps expired event order now r d h = tt
  use_by_status-Keeps active event order now r d h = elim (Bool-cases (ltb now r.expires_at)) [
    | inl e ↦ rw e (pay-Keeps event order now r d h)
    | inr e ↦ rw e tt
  ]
  use_by_status-Keeps (RightStatus.other s) event order now r d h = tt

  pub use_right-Keeps :
      (event token order now : ℕ) (d : Durable)
      → Keeps d
      → OnOk KeepsTables (use_right event token order now d)
  unfolding use_right
  use_right-Keeps event token order now d h =
      OnOk-bind (λ _. Unit) KeepsTables (get_right_by_token token d)
        (λ r. use_by_status r.status event order now r d) (OnOk-any (get_right_by_token token d))
        (λ r _. use_by_status-Keeps r.status event order now r d h)

  expire_by_status-Keeps :
      (status : RightStatus) (now : ℕ) (r : Right) (m : QueueMembership) (d : Durable)
      → Keeps d
      → OnOk KeepsTables (expire_by_status status now r m d)
  expire_by_status-Keeps used now r m d h = h
  expire_by_status-Keeps expired now r m d h = h
  expire_by_status-Keeps active now r m d h =
      let d' = record d { rights = set_active expire_row r.token d.rights } in
      OnOk-bind Keeps KeepsTables (upsert_membership now m d') _
        (upsert_membership-Keeps now m d' (lasts.changed expire_row (λ _. refl) r.token d.rights h))
        (λ _ k. k)
  expire_by_status-Keeps (RightStatus.other s) now r m d h = tt

  pub expire_right-Keeps :
      (now token : ℕ) (m : QueueMembership) (d : Durable)
      → Keeps d
      → OnOk KeepsTables (expire_right_and_upsert_membership now token m d)
  unfolding expire_right_and_upsert_membership
  expire_right-Keeps now token m d h =
      OnOk-bind (λ _. Unit) KeepsTables (get_right_by_token token d)
        (λ r. expire_by_status r.status now r m d) (OnOk-any (get_right_by_token token d))
        (λ r _. expire_by_status-Keeps r.status now r m d h)
