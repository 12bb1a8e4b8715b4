-- ===== src/Postgres/Snapshot.antt =====
-- durable.go, LoadRecoverySnapshot: the tables in one read-only transaction, each in its order.
use team_10_queue_serivce.Base.{Bool, ◌&&◌, ◌||◌, ltb, ◌==◌}
use team_10_queue_serivce.Base.Sort.{sort_by}
use team_10_queue_serivce.Models.{ProductStock, QueueMembership, Right, RecoverySnapshot}
use team_10_queue_serivce.Models.Result.{ok}
use team_10_queue_serivce.Postgres.State.{Durable}
use team_10_queue_serivce.World.{M, read_durable}

-- ORDER BY product_id
abbrev pub stock_before : ProductStock → ProductStock → Bool
stock_before a b = ltb a.product_id b.product_id

-- ORDER BY product_id, updated_at, id
abbrev pub membership_before : QueueMembership → QueueMembership → Bool
membership_before a b =
    ltb a.product_id b.product_id
    || (a.product_id == b.product_id)
      && (ltb a.updated_at b.updated_at || (a.updated_at == b.updated_at) && ltb a.id b.id)

-- ORDER BY created_at, token
abbrev pub right_before : Right → Right → Bool
right_before a b =
    ltb a.created_at b.created_at || (a.created_at == b.created_at) && ltb a.token b.token

abbrev pub snapshot_of : Durable → RecoverySnapshot
snapshot_of d = record {
  stocks = sort_by stock_before d.stocks;
  memberships = sort_by membership_before d.memberships;
  rights = sort_by right_before d.rights;
}

unfoldable pub load_recovery_snapshot : M RecoverySnapshot
load_recovery_snapshot = read_durable λ d. ok (snapshot_of d)
