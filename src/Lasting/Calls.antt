-- ===== src/Lasting/Calls.antt =====
-- The calls of PostgreSQL that the service makes, and any call of Redis, keep what lasts of the rights.
use team_10_queue_serivce.Base.{ℕ, ◌≡◌, sym, refl, subst, Bool, List}
use team_10_queue_serivce.Models.{Error, ProductStock, QueueMembership, Right}
use team_10_queue_serivce.Models.Result.{Result, ok, err}
use team_10_queue_serivce.Models.Result.OnOk.{OnOk}
use team_10_queue_serivce.Postgres.State.{Durable}
use team_10_queue_serivce.Postgres.Rights.{Transition}
use team_10_queue_serivce.World.{Store, M, pure, raise, when, call, committed}
use team_10_queue_serivce.World.Triple.{
  Ends, Triple-pure, Triple-raise, Triple-call, Triple-if, Triple-uuid,
}
use team_10_queue_serivce.Redis.Repo.{claim_membership, release_membership_claim}
use team_10_queue_serivce.Service.Config.{
  save_stock, upsert, issue_right, use_right_tx, expire_right_tx, expire_rights_tx,
  commit_transition, with_claim,
}
use team_10_queue_serivce.Oversell.Steps.{Leaves-with_claim}
use team_10_queue_serivce.Lasting.{IsLasting, Kept, Keeps}
use team_10_queue_serivce.Lasting.Tables.{
  save_initial_stock-Keeps, upsert_membership-Keeps, issue_right-Keeps, use_right-Keeps,
  expire_right-Keeps, expire_rights-Keeps,
}

module _ (K : List Right → Type 0) where
  anyway : {A : Type 0} (r : Result A) (st : Store) → Kept K st → Ends (λ _. Kept K) (Kept K) r st
  anyway (ok a) st h = h
  anyway (err e) st h = h

  -- A call that leaves the rights alone.
  pub Keeps-call :
      {A : Type 0} (f : ℕ → Store → Result A × Store)
      → ((now : ℕ) (st : Store) → (f now st).1.durable.rights ≡ st.durable.rights)
      → Keeps K (call f)
  Keeps-call f same =
      Triple-call f (λ now st h. anyway (f now st).0 (f now st).1 (subst K (sym (same now st)) h))
        (λ st h. h)

  pub Keeps-pure : {A : Type 0} (a : A) → Keeps K (pure a)
  Keeps-pure a = Triple-pure a (λ st h. h)

  pub Keeps-raise : {A : Type 0} (e : Error) → Keeps K (raise {A = A} e)
  Keeps-raise e = Triple-raise e (λ st h. h)

  pub Keeps-when : (b : Bool) (m : M (Unit {0})) → Keeps K m → Keeps K (when b m)
  Keeps-when b m h = Triple-if b _ _ (λ e. h) (λ e. Keeps-pure tt)

  pub Keeps-with_claim :
      {A : Type 0} (q u : ℕ) (lost body : M A)
      → Keeps K lost
      → Keeps K body
      → Keeps K (with_claim q u lost body)
  unfolding claim_membership release_membership_claim
  Keeps-with_claim q u lost body =
      Leaves-with_claim q u lost body (λ owner ttl. Keeps-call _ (λ now st. refl))
        (λ owner. Keeps-call _ (λ now st. refl)) (λ st h. h)

  module _ (lasts : IsLasting K) where
    commit :
        (r : Result Durable) (st : Store)
        → OnOk (λ d. K d.rights) r
        → Kept K st
        → Ends (λ _. Kept K) (Kept K) (committed r st).0 (committed r st).1
    commit (ok d) st k h = k
    commit (err e) st k h = h

    commit-right :
        (r : Result Transition) (st : Store)
        → OnOk (λ t. K t.tables.rights) r
        → Kept K st
        → Ends (λ _. Kept K) (Kept K) (commit_transition r st).0 (commit_transition r st).1
    commit-right (ok t) st k h = k
    commit-right (err e) st k h = h

    pub Keeps-save_stock : (stock : ProductStock) → Keeps K (save_stock stock)
    unfolding save_stock
    Keeps-save_stock stock =
        Triple-call _ (λ now st h. save_initial_stock-Keeps K lasts stock st.durable h) (λ st h. h)

    pub Keeps-upsert : (m : QueueMembership) → Keeps K (upsert m)
    unfolding upsert
    Keeps-upsert m =
        Triple-call _
          (λ now st h. commit _ st (upsert_membership-Keeps K lasts now m st.durable h) h)
          (λ st h. h)

    pub Keeps-issue_right : (r : Right) (m : QueueMembership) → Keeps K (issue_right r m)
    unfolding issue_right
    Keeps-issue_right r m =
        Triple-call _ (λ now st h. commit _ st (issue_right-Keeps K lasts now r m st.durable h) h)
          (λ st h. h)

    pub Keeps-use_right : (token order now : ℕ) → Keeps K (use_right_tx token order now)
    unfolding use_right_tx
    Keeps-use_right token order now = Triple-uuid _ λ event.
        Triple-call _
          (λ _ st h.
            commit-right _ st (use_right-Keeps K lasts event token order now st.durable h) h)
          (λ st h. h)

    pub Keeps-expire_right : (token : ℕ) (m : QueueMembership) → Keeps K (expire_right_tx token m)
    unfolding expire_right_tx
    Keeps-expire_right token m =
        Triple-call _
          (λ now st h. commit-right _ st (expire_right-Keeps K lasts now token m st.durable h) h)
          (λ st h. h)

    pub Keeps-expire_rights : (tokens : List ℕ) → Keeps K (expire_rights_tx tokens)
    unfolding expire_rights_tx
    Keeps-expire_rights tokens =
        Triple-call _ (λ now st h. expire_rights-Keeps K lasts tokens st.durable h) (λ st h. h)
