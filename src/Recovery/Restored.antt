-- ===== src/Recovery/Restored.antt =====
-- The stock that recovery leaves in Redis.
use team_10_queue_serivce.Base.{
  ℕ, ◌+◌, ◌≤◌, ◌≡◌, ◌⊎◌, ◌∙◌, refl, sym, ap, List, some, arith, inl, inr, ltb, Bool-cases,
  Option-cases, is_some,
}
use team_10_queue_serivce.Models.{ProductStock}
use team_10_queue_serivce.Postgres.Rows.{find_stock}
use team_10_queue_serivce.World.{Store}
use team_10_queue_serivce.World.Triple.{Triple, Triple-after, Always}
use team_10_queue_serivce.Service.Recovery.Rights.{RecoveryProductState}
use team_10_queue_serivce.Service.Recovery.{RecoveryState, rebuild_cache}
use team_10_queue_serivce.Recovery.Units.{reserved_of}
use team_10_queue_serivce.Recovery.Promised.{IsReserved}
use team_10_queue_serivce.Oversell.{exactly, pool, pool_of, rights_units, offers_units}
use team_10_queue_serivce.Recovery.Rebuilt.{AreDistinct, restored, Set-rebuild_cache}

-- The pool of product `p` is empty, or it and what the state promises are within the row's count.
abbrev pub IsCovered : ℕ → ProductStock → RecoveryState → Store → Type 0
IsCovered p row b st =
    (pool (exactly 0) p st.cache ≡ 0)
    ⊎ (pool (exactly 0) p st.cache + rights_units p b.rights + offers_units p b.memberships
        ≤ row.product_count)

restored-IsCovered :
    (p : ℕ) (row : ProductStock) (x : RecoveryProductState) (b : RecoveryState) (st : Store)
    → b.products p ≡ some x
    → rights_units p b.rights + offers_units p b.memberships ≤ reserved_of (b.products p)
    → st.cache.stocks p ≡ restored row x
    → IsCovered p row b st
restored-IsCovered p row x b st e h set =
    let left = ap (pool_of (exactly 0)) set in
    let reserved = ap reserved_of e in
    elim (Bool-cases (ltb row.product_count x.reserved)) [
      | inl c ↦ inl (ground (arith, left, c))
      | inr c ↦ inr (ground (arith, left, reserved, h, c))
    ]

-- Behind a rebuild that succeeds, what the state keeps of a product fits beside its pool.
pub Triple-rebuild_cache :
    (p : ℕ) (stocks : List ProductStock) (row : ProductStock) (b : RecoveryState)
    → AreDistinct stocks
    → find_stock p stocks ≡ some row
    → IsReserved p b
    → Triple Always (rebuild_cache stocks b) (λ u. IsCovered p row b) Always
Triple-rebuild_cache p stocks row b d f h = elim (Option-cases (b.products p)) [
  | inl e ↦ let unknown = sym (ap is_some e) ∙ h.0 in cc
  | inr (x, e) ↦
      Triple-after _ (λ u st set. restored-IsCovered p row x b st e h.1 set)
        (Set-rebuild_cache p _ b stocks row x d f e refl)
]
