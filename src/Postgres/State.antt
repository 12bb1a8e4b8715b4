-- ===== src/Postgres/State.antt =====
-- The tables of 001_init_schema.sql and 003_stock_decrement_outbox.sql, as lists of rows in the order
-- of their insertion.
use team_10_queue_serivce.Base.{ℕ, List, []}
use team_10_queue_serivce.Models.{ProductStock, QueueMembership, Right, StockDecrement}

pub record Durable : Type 0 where
  pub rights : List Right
  pub memberships : List QueueMembership
  -- the next value of the BIGSERIAL key of `queue_memberships`
  pub next_membership_id : ℕ
  pub stocks : List ProductStock
  pub outbox : List StockDecrement

abbrev pub empty_tables : Durable
empty_tables = record {
  rights = [];
  memberships = [];
  next_membership_id = 1;
  stocks = [];
  outbox = [];
}
