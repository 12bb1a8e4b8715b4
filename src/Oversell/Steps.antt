-- ===== src/Oversell/Steps.antt =====
-- What the transactions of the service and its claims do to the units of a product.
use team_10_queue_serivce.Base.{ℕ, ◌+◌, ◌≤◌, ◌≡◌, Bool, some, arith, if◌then◌else◌}
use team_10_queue_serivce.Models.{QueueMembership, Right}
use team_10_queue_serivce.Models.Result.{Result, ok, err}
use team_10_queue_serivce.Models.Result.OnOk.{OnOk}
use team_10_queue_serivce.Redis.Repo.{claim_membership, release_membership_claim}
use team_10_queue_serivce.Postgres.Rights.{
  Transition, issue_right_and_upsert_membership, use_right, expire_right_and_upsert_membership,
}
use team_10_queue_serivce.Postgres.Rows.{find_right}
use team_10_queue_serivce.Postgres.State.{Durable}
use team_10_queue_serivce.World.{Store, M, committed}
use team_10_queue_serivce.World.Triple.{
  Ends, Triple, Leaves, Triple-call, Triple-bind, Triple-if, Triple-uuid, Triple-error,
  Leaves-finally,
}
use team_10_queue_serivce.Service.Config.{
  issue_right, use_right_tx, expire_right_tx, commit_transition, with_claim,
}
use team_10_queue_serivce.Oversell.{Unsaved, right_units, offer_units, units_at, NoOversell}
use team_10_queue_serivce.Oversell.Transactions.{
  HoldsMore, Pays, Frees, issue_right-HoldsMore, use_right-Pays, expire_right-Frees,
}

module _ (total : Unsaved) (p : ℕ) where
  -- What was under way for a right and its membership is written down with them.
  pub issue_right-Triple :
      (n : ℕ) (r : Right) (m : QueueMembership)
      → right_units p r + offer_units p m ≤ n
      → Triple
          (NoOversell total p n)
          (issue_right r m)
          (λ _. NoOversell total p 0)
          (NoOversell total p n)
  unfolding issue_right
  issue_right-Triple n r m le =
      Triple-call _
        (λ now st h.
          written (issue_right_and_upsert_membership now r m st.durable) st h
            (issue_right-HoldsMore total p now r m st.durable))
        (λ st h. h)
    where
      written :
          (out : Result Durable) (st : Store)
          → NoOversell total p n st
          → OnOk (HoldsMore total p (right_units p r + offer_units p m) st.durable) out
          → Ends
              (λ _. NoOversell total p 0)
              (NoOversell total p n)
              (committed out st).0
              (committed out st).1
      written (ok d) st h k = record {
        keyed = h.keyed;
        bounded = omega (arith, k.more, k.same_stock);
      }
      written (err e) st h k = h

  pub use_right-Triple :
      (token order now : ℕ)
      → Leaves (NoOversell total p 0) (use_right_tx token order now) (NoOversell total p 0)
  unfolding use_right_tx
  use_right-Triple token order now = Triple-uuid _ λ event.
      Triple-call _
        (λ _ st h.
          written (use_right event token order now st.durable) st h
            (use_right-Pays total p event token order now st.durable))
        (λ st h. h)
    where
      written :
          (out : Result Transition) (st : Store)
          → NoOversell total p 0 st
          → OnOk (Pays total p st.durable) out
          → Ends
              (λ _. NoOversell total p 0)
              (NoOversell total p 0)
              (commit_transition out st).0
              (commit_transition out st).1
      written (ok t) st h k = record { keyed = h.keyed; bounded = omega (arith, k.covered) }
      written (err e) st h k = h

  -- The units that the transaction has taken from a right.
  abbrev pub freed_units : Right × Bool → ℕ
  freed_units (r, transitioned) = if transitioned then units_at r.product_id r.quantity p else 0

  pub expire_right-Triple :
      {F : Right → Type 0} (token : ℕ) (m : QueueMembership)
      → offer_units p m ≡ 0
      → ((r r' : Right) → F r → r'.product_id ≡ r.product_id → r'.quantity ≡ r.quantity → F r')
      → Triple
          (λ st.
            NoOversell total p 0 st
            × ((r : Right) → find_right token st.durable.rights ≡ some r → F r))
          (expire_right_tx token m)
          (λ r st. NoOversell total p (freed_units r) st × F r.0)
          (NoOversell total p 0)
  unfolding expire_right_tx
  expire_right-Triple {F} token m none_offered carry =
      Triple-call _
        (λ now st h.
          written (expire_right_and_upsert_membership now token m st.durable) st h.0 h.1
            (expire_right-Frees total p now token m st.durable))
        (λ st h. h.0)
    where
      written :
          (out : Result Transition) (st : Store)
          → NoOversell total p 0 st
          → ((r : Right) → find_right token st.durable.rights ≡ some r → F r)
          → OnOk (Frees total p (offer_units p m) token st.durable) out
          → Ends
              (λ r st. NoOversell total p (freed_units r) st × F r.0)
              (NoOversell total p 0)
              (commit_transition out st).0
              (commit_transition out st).1
      written (ok t) st h f k = (
        record { keyed = h.keyed; bounded = omega (arith, k.less, k.same_stock, none_offered) },
        carry k.row t.right (f k.row k.is_found) k.same_product k.same_quantity,
      )
      written (err e) st h f k = h

-- Under a claim, both the loser's way and the winner's count.
pub Leaves-with_claim :
    {A : Type 0} {P Q : Store → Type 0} (q u : ℕ) (lost body : M A)
    → ((owner ttl : ℕ) → Leaves P (claim_membership q u owner ttl) P)
    → ((owner : ℕ) → Leaves Q (release_membership_claim q u owner) Q)
    → ((st : Store) → P st → Q st)
    → Leaves P lost Q
    → Leaves P body Q
    → Leaves P (with_claim q u lost body) Q
unfolding with_claim
Leaves-with_claim q u lost body claim release weaken hl hb = Triple-uuid _ λ owner.
    Triple-bind _ _ (Triple-error _ weaken (claim owner _))
      λ won. Triple-if won _ _ (λ e. Leaves-finally body _ hb (release owner)) (λ e. hl)
