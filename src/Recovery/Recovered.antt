-- ===== src/Recovery/Recovered.antt =====
-- RecoverCache as a whole.
use team_10_queue_serivce.Base.{ℕ, ◌≡◌, sym, subst, ap, some, refl, is_some}
use team_10_queue_serivce.Models.{ProductStock, RecoverySnapshot}
use team_10_queue_serivce.Models.Result.{ok}
use team_10_queue_serivce.Postgres.Rows.{find_stock}
use team_10_queue_serivce.Postgres.Snapshot.{snapshot_of, load_recovery_snapshot}
use team_10_queue_serivce.World.{World, Store, M, time_now, ◌>>=◌, ◌>>◌}
use team_10_queue_serivce.World.Triple.{
  Triple, Ends, Always, Triple-bind, Triple-call, Triple-clock, Triple-given, Triple-after,
  Triple-always,
}
use team_10_queue_serivce.Service.Recovery.{
  RecoveryState, build_recovery_state, apply_recovery_repairs, rebuild_cache, recover_cache,
}
use team_10_queue_serivce.Recovery.Promised.{IsSound, IsReserved, build_recovery_state-IsReserved}
use team_10_queue_serivce.Recovery.Rebuilt.{AreDistinct}
use team_10_queue_serivce.Recovery.Restored.{IsCovered, Triple-rebuild_cache}

-- buildRecoveryState returns `b` for the snapshot, at some time.
abbrev pub IsBuilt : RecoverySnapshot → RecoveryState → Type 0
IsBuilt snapshot b = (now : ℕ) × (w : World) × ((build_recovery_state snapshot now w).0 ≡ ok b)

-- Redis holds for product `p` what a state built from the snapshot leaves, and the state reserves
-- what it keeps.
abbrev pub IsRecovered : ℕ → ProductStock → RecoverySnapshot → Store → Type 0
IsRecovered p row snapshot st =
    (b : RecoveryState) × (IsBuilt snapshot b) × (IsReserved p b) × (IsCovered p row b st)

module _ (p : ℕ) (row : ProductStock) (snapshot : RecoverySnapshot) (sound : IsSound snapshot)
    (distinct : AreDistinct snapshot.stocks)
    (has_row : find_stock p snapshot.stocks ≡ some row) where
  Triple-IsBuilt :
      (now : ℕ)
      → Triple Always
          (build_recovery_state snapshot now)
          (λ b st. Unit {0} × (IsBuilt snapshot b × IsReserved p b))
          Always
  Triple-IsBuilt now = record {
    from = λ w u.
        let (b, e, h) =
          build_recovery_state-IsReserved p snapshot now w sound (ap is_some has_row) in
        subst
          (λ r.
            Ends (λ b st. Unit {0} × (IsBuilt snapshot b × IsReserved p b)) Always r
              (build_recovery_state snapshot now w).1.store)
          (sym e) (tt, ((now, w, e), h));
  }

  -- RecoverCache behind the read of the tables, and behind the state that is built from them.
  abbrev write_state : RecoverySnapshot → RecoveryState → M (Unit {0})
  write_state tables state = do
    apply_recovery_repairs state.repairs
    rebuild_cache tables.stocks state

  abbrev recover_from : RecoverySnapshot → M (Unit {0})
  recover_from tables = do
    now ← time_now
    state ← build_recovery_state tables now
    write_state tables state

  Triple-recover_from :
      Triple Always (recover_from snapshot) (λ u. IsRecovered p row snapshot) Always
  Triple-recover_from = Triple-clock _ λ now.
      Triple-bind _ (write_state snapshot) (Triple-IsBuilt now) λ b.
        Triple-given _ λ (built, reserved).
          Triple-bind (apply_recovery_repairs b.repairs) (λ _. rebuild_cache snapshot.stocks b)
            (Triple-always _)
            λ _.
              Triple-after _ (λ u st c. (b, built, reserved, c))
                (Triple-rebuild_cache p snapshot.stocks row b distinct has_row reserved)

  Triple-recover_cache :
      Triple
        (λ st. snapshot_of st.durable ≡ snapshot)
        recover_cache
        (λ u. IsRecovered p row snapshot)
        Always
  unfolding recover_cache load_recovery_snapshot
  Triple-recover_cache =
      Triple-bind {Q = λ tables st. Unit {0} × (tables ≡ snapshot)} _ recover_from
        (Triple-call _ (λ now st h. (tt, h)) (λ st h. tt))
        λ tables. Triple-given _ λ e.
          subst (λ t. Triple Always (recover_from t) (λ u. IsRecovered p row snapshot) Always)
            (sym e) Triple-recover_from

-- When RecoverCache succeeds, then the state that buildRecoveryState built from the tables reserves
-- the rights and the pending offers of a product that it keeps, and the pool of the product is empty,
-- or it and these are within the product count of the product's row, if the rows of the tables are
-- well-formed, the tokens differ, the stock rows have different products and the product has one.
pub recover_cache-IsRecovered :
    (p : ℕ) (row : ProductStock) (w : World)
    → IsSound (snapshot_of w.store.durable)
    → AreDistinct (snapshot_of w.store.durable).stocks
    → find_stock p (snapshot_of w.store.durable).stocks ≡ some row
    → Ends
        (λ u. IsRecovered p row (snapshot_of w.store.durable))
        Always
        (recover_cache w).0
        (recover_cache w).1.store
recover_cache-IsRecovered p row w sound distinct has_row =
    (Triple-recover_cache p row (snapshot_of w.store.durable) sound distinct has_row).from w refl
