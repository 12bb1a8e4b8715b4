-- ===== src/Service/Config.antt =====
-- The settings of QueueService, the durable calls it makes, and the claim that guards a transition.
use team_10_queue_serivce.Base.{List, Option, ℕ, ◌*◌, Bool, if◌then◌else◌}
use team_10_queue_serivce.Models.{QueueMembership, Right, ProductStock, StockDecrement, second}
use team_10_queue_serivce.Models.Result.{Result, ok}
use team_10_queue_serivce.World.{
  Store, M, call, change_durable, read_durable, finally, new_uuid, ◌>>=◌,
}
use team_10_queue_serivce.Postgres.Rows.{
  upsert_membership, save_initial_stock, get_right_by_token, insert_right, expire_rights,
}
use team_10_queue_serivce.Postgres.Rights.{
  Transition, issue_right_and_upsert_membership, use_right, expire_right_and_upsert_membership,
}
use team_10_queue_serivce.Redis.Repo.{claim_membership, release_membership_claim}

-- `initial_stock` is how many units AvitoBackend says that a product has: each entry asks once, and the
-- next may get another answer, as one of a service with another `initial_stock` (Transport/Reached).
-- `decrement_reply` is the message of the error, if any, with which its client answers an event, and
-- `others` what other requests and workers do to the stores while the n-th attempt of a waiting request
-- sleeps; `is_cancelled` says whether the caller has gone by then.
pub record QueueService : Type 0 where
  pub offer_ttl : ℕ
  pub payment_ttl : ℕ
  pub avg_payment_time : ℕ
  pub presence_timeout : ℕ
  pub stock_outbox_lease : ℕ
  pub stock_outbox_batch_size : ℕ
  pub stock_outbox_max_backoff : ℕ
  pub max_active_queues : ℕ
  pub initial_stock : ℕ → ℕ
  pub decrement_reply : StockDecrement → Option (List ℕ)
  pub others : ℕ → Store → Store
  pub is_cancelled : ℕ → Bool

abbrev pub membership_claim_ttl : ℕ
membership_claim_ttl = 30 * second

abbrev pub join_await_attempts : ℕ
join_await_attempts = 20

-- avito.GetInitialStock
unfoldable pub get_initial_stock : QueueService → ℕ → M ℕ
get_initial_stock s p = call λ now st. (ok (s.initial_stock p), st)

unfoldable pub save_stock : ProductStock → M (Unit {0})
save_stock stock = change_durable λ now d. ok (save_initial_stock stock d)

unfoldable pub upsert : QueueMembership → M (Unit {0})
upsert m = change_durable λ now. upsert_membership now m

unfoldable pub issue_right : Right → QueueMembership → M (Unit {0})
issue_right right m = change_durable λ now. issue_right_and_upsert_membership now right m

-- DurableRepo.SaveRight
unfoldable pub save_right : Right → M (Unit {0})
save_right right = change_durable λ _ d. insert_right right d

unfoldable pub get_durable_right : ℕ → M Right
get_durable_right token = read_durable (get_right_by_token token)

-- The right and whether it changed; the tables are kept on success only.
abbrev pub commit_transition : Result Transition → Store → Result (Right × Bool) × Store
commit_transition (ok t) st = (ok (t.right, t.transitioned), record st { durable = t.tables })
commit_transition (Result.err e) st = (Result.err e, st)

unfoldable pub use_right_tx : ℕ → ℕ → ℕ → M (Right × Bool)
use_right_tx token order now = do
  event ← new_uuid
  call λ _ st. commit_transition (use_right event token order now st.durable) st

unfoldable pub expire_right_tx : ℕ → QueueMembership → M (Right × Bool)
expire_right_tx token m =
    call λ now st. commit_transition (expire_right_and_upsert_membership now token m st.durable) st

-- The claim on one (product, user): the loser runs `lost`, the winner `body`, which ends with the
-- release of the claim whatever it returned.
unfoldable pub with_claim : {A : Type 0} → ℕ → ℕ → M A → M A → M A
with_claim p u lost body = do
  owner ← new_uuid
  won ← claim_membership p u owner membership_claim_ttl
  if won then finally body (release_membership_claim p u owner) else lost

unfoldable pub expire_rights_tx : List ℕ → M (Unit {0})
expire_rights_tx tokens = change_durable λ now d. ok (expire_rights tokens d)
