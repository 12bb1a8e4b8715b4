-- ===== src/Outbox/Leases.antt =====
-- Leases on events of the outbox: ClaimStockDecrements.
use team_10_queue_serivce.Base.{not-true, not-false, ℕ, ◌≡◌, true, not, ltb, contains}
use team_10_queue_serivce.Postgres.State.{Durable}
use team_10_queue_serivce.Postgres.Outbox.{due_ids, lease_rows, rows_with, claim_stock_decrements}
use team_10_queue_serivce.Outbox.Rows.{
  all, ids_of, all-due_ids, leased_rows-not_due, all-rows_with, rows_with-contains, weaken_all,
}

-- The events that a claim takes are leased: the next claim of the outbox, by whichever worker and with
-- whichever limit, gets none of them if it comes before the end of the lease.
pub claim_stock_decrements-excludes :
    (now until limit now' until' limit' : ℕ) (d : Durable)
    → ltb now' until ≡ true
    → let (first, leased) = claim_stock_decrements now until limit d in
      let (second, later) = claim_stock_decrements now' until' limit' leased in
      all (λ e. not (contains e.id (ids_of first))) second ≡ true
unfolding claim_stock_decrements
claim_stock_decrements-excludes now until limit now' until' limit' d h =
    let ids = due_ids now limit d.outbox in
    let leased = lease_rows now until ids d.outbox in
    let taken =
      all-due_ids (λ i. not (contains i ids)) now' limit' leased
        (leased_rows-not_due now until now' ids d.outbox h) in
    all-rows_with (λ i. not (contains i (ids_of (rows_with ids leased))))
      (due_ids now' limit' leased) (lease_rows now' until' (due_ids now' limit' leased) leased)
      (weaken_all (λ i. not (contains i ids))
        (λ i. not (contains i (ids_of (rows_with ids leased))))
        (λ i k. not-false _ (rows_with-contains i ids leased (not-true _ k)))
        (due_ids now' limit' leased) taken)
