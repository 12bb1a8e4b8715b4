-- ===== src/Postgres/Rights.antt =====
-- The transactions of durable.go. A transaction that returns an error leaves the tables as they were.
use team_10_queue_serivce.Base.{
  ℕ, Bool, true, false, List, [], ◌∷◌, ◌++◌, Option, none, some, ltb, ◌==◌, if◌then◌else◌,
}
use team_10_queue_serivce.Models.Status.{RightStatus, active, expired, used}
use team_10_queue_serivce.Models.{
  QueueMembership, Right, StockDecrement, token_used, token_expired, invalid_status, stock_depleted,
  constraint_violation,
}
use team_10_queue_serivce.Models.Result.{Result, ok, err, ◌>>=◌}
use team_10_queue_serivce.Postgres.State.{Durable}
use team_10_queue_serivce.Postgres.Rows.{
  get_right_by_token, insert_right, set_active, expire_row, use_row, upsert_membership,
  purchase_rows, decrement_stock,
}

-- IssueRightAndUpsertMembershipTx
unfoldable pub issue_right_and_upsert_membership :
    ℕ → Right → QueueMembership → Durable → Result Durable
unfolding insert_right upsert_membership
issue_right_and_upsert_membership now right m d = do
  d' ← insert_right right d
  upsert_membership now m d'

-- What a transition of a right returns: the right, whether it changed, and the tables.
pub record Transition : Type 0 where
  pub right : Right
  pub transitioned : Bool
  pub tables : Durable

abbrev pub unchanged : Right → Durable → Result Transition
unchanged right d = ok (record { right = right; transitioned = false; tables = d })

abbrev pub has_order : ℕ → Option ℕ → Bool
has_order order none = false
has_order order (some o) = o == order

-- right_token is UNIQUE in the outbox.
abbrev pub is_listed : ℕ → List StockDecrement → Bool
is_listed t [] = false
is_listed t (e ∷ es) = if e.right_token == t then true else is_listed t es

abbrev pub decrement_event : ℕ → ℕ → ℕ → Right → StockDecrement
decrement_event id order now right = record {
  id = id;
  right_token = right.token;
  order_id = order;
  product_id = right.product_id;
  quantity = right.quantity;
  attempts = 0;
  next_attempt_at = now;
  locked_until = none;
  delivered_at = none;
  last_error = none;
  created_at = now;
  updated_at = now;
}

-- The statements of UseRightTx behind its checks; `event` is the fresh key of the outbox row.
abbrev pub pay : ℕ → ℕ → ℕ → Right → Durable → Result Transition
pay event order now right d = elim (decrement_stock now right.product_id right.quantity d.stocks) [
  | none ↦ err stock_depleted
  | some stocks ↦
      if is_listed right.token d.outbox
      then err constraint_violation
      else ok (record {
        right = use_row order now right;
        transitioned = true;
        tables = record d {
          rights = set_active (use_row order now) right.token d.rights;
          stocks = stocks;
          outbox = d.outbox ++ decrement_event event order now right ∷ [];
          memberships = purchase_rows now right.product_id right.user_id right.token d.memberships;
        };
      })
]

abbrev pub use_by_status : RightStatus → ℕ → ℕ → ℕ → Right → Durable → Result Transition
use_by_status used event order now right d =
    if has_order order right.order_id then unchanged right d else err token_used
use_by_status expired event order now right d = err token_expired
use_by_status active event order now right d =
    if ltb now right.expires_at then pay event order now right d else err token_expired
use_by_status (RightStatus.other s) event order now right d = err invalid_status

-- UseRightTx
unfoldable pub use_right : ℕ → ℕ → ℕ → ℕ → Durable → Result Transition
unfolding get_right_by_token
use_right event token order now d = do
  right ← get_right_by_token token d
  use_by_status right.status event order now right d

abbrev pub expire_by_status :
    RightStatus → ℕ → Right → QueueMembership → Durable → Result Transition
expire_by_status used now right m d = unchanged right d
expire_by_status expired now right m d = unchanged right d
expire_by_status active now right m d = do
  d' ← upsert_membership now m (record d { rights = set_active expire_row right.token d.rights })
  ok (record { right = expire_row right; transitioned = true; tables = d' })
expire_by_status (RightStatus.other s) now right m d = err invalid_status

-- ExpireRightAndUpsertMembershipTx
unfoldable pub expire_right_and_upsert_membership :
    ℕ → ℕ → QueueMembership → Durable → Result Transition
unfolding get_right_by_token upsert_membership
expire_right_and_upsert_membership now token m d = do
  right ← get_right_by_token token d
  expire_by_status right.status now right m d
