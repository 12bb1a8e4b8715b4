-- ===== src/Postgres/Reported.antt =====
-- How the seller's metrics and the counts of a queue in durable.go fit together.
use team_10_queue_serivce.Base.{ℕ, ◌+◌, ◌≤◌, Bool, true, List, if◌then◌else◌}
use team_10_queue_serivce.Models.Status.{
  MembershipStatus, queued, right_active, offer_pending, purchased,
}
use team_10_queue_serivce.Models.{QueueMembership, ProductMetrics}
use team_10_queue_serivce.Models.Result.OnOk.{OnOk}
use team_10_queue_serivce.Postgres.State.{Durable}
use team_10_queue_serivce.Postgres.Reports.{count_memberships_by_status, count_rights}

-- 1 for a row that counts.
abbrev one_if : Bool → ℕ
one_if b = if b then 1 else 0

abbrev counted : ℕ → List QueueMembership → MembershipStatus → ℕ
counted p ms st = count_memberships_by_status p ms st

-- The metrics of product `p` count no row of the tables twice.
pub record AreBounded (p : ℕ) (d : Durable) (m : ProductMetrics) : Type 0 where
  pub members :
      counted p d.memberships queued
        + counted p d.memberships right_active
        + counted p d.memberships offer_pending
        + counted p d.memberships purchased
        + m.sold_out_count
        + m.drop_off_count
      ≤ m.total_contenders
  pub rights : m.used_rights_count + m.expired_rights_count ≤ count_rights p (λ _. true) d.rights
