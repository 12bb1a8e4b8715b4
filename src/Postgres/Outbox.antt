-- ===== src/Postgres/Outbox.antt =====
-- durable.go: the statements on stock_decrement_outbox. Each is one statement, and its row locks last
-- for it, so that FOR UPDATE SKIP LOCKED finds no row that another worker holds.
use team_10_queue_serivce.Base.{
  ℕ, ◌+◌, Bool, true, not, ◌&&◌, ◌||◌, List, [], ◌∷◌, Option, none, some, ltb, leb, ◌==◌,
  if◌then◌else◌, is_some, contains, take, map,
}
use team_10_queue_serivce.Base.Sort.{sort_by}
use team_10_queue_serivce.Models.{StockDecrement}
use team_10_queue_serivce.Postgres.State.{Durable}

-- locked_until IS NULL OR locked_until <= now
abbrev pub is_unlocked : ℕ → Option ℕ → Bool
is_unlocked now none = true
is_unlocked now (some until) = leb until now

abbrev pub is_due : ℕ → StockDecrement → Bool
is_due now e =
    not (is_some e.delivered_at) && leb e.next_attempt_at now && is_unlocked now e.locked_until

-- ORDER BY next_attempt_at, created_at
abbrev pub due_before : StockDecrement → StockDecrement → Bool
due_before a b =
    ltb a.next_attempt_at b.next_attempt_at
    || (a.next_attempt_at == b.next_attempt_at) && ltb a.created_at b.created_at

abbrev pub due_rows : ℕ → List StockDecrement → List StockDecrement
due_rows now [] = []
due_rows now (e ∷ es) = if is_due now e then e ∷ due_rows now es else due_rows now es

abbrev pub due_ids : ℕ → ℕ → List StockDecrement → List ℕ
due_ids now limit es = map (λ e. e.id) (take limit (sort_by due_before (due_rows now es)))

abbrev pub lease_row : ℕ → ℕ → StockDecrement → StockDecrement
lease_row now until e = record e {
  locked_until = some until;
  attempts = e.attempts + 1;
  updated_at = now;
}

abbrev pub lease_rows : ℕ → ℕ → List ℕ → List StockDecrement → List StockDecrement
lease_rows now until ids [] = []
lease_rows now until ids (e ∷ es) =
    (if contains e.id ids then lease_row now until e else e) ∷ lease_rows now until ids es

-- RETURNING
abbrev pub rows_with : List ℕ → List StockDecrement → List StockDecrement
rows_with ids [] = []
rows_with ids (e ∷ es) = if contains e.id ids then e ∷ rows_with ids es else rows_with ids es

-- DurableRepo.ClaimStockDecrements; a limit of 0 finds no row.
unfoldable pub claim_stock_decrements : ℕ → ℕ → ℕ → Durable → List StockDecrement × Durable
claim_stock_decrements now until limit d =
    let ids = due_ids now limit d.outbox in
    let leased = lease_rows now until ids d.outbox in
    (rows_with ids leased, record d { outbox = leased })

-- WHERE id = ? AND delivered_at IS NULL
abbrev pub set_open :
    (StockDecrement → StockDecrement) → ℕ → List StockDecrement → List StockDecrement
set_open f id [] = []
set_open f id (e ∷ es) =
    (if (e.id == id) && not (is_some e.delivered_at) then f e else e) ∷ set_open f id es

abbrev pub delivered_row : ℕ → StockDecrement → StockDecrement
delivered_row now e = record e {
  delivered_at = some now;
  locked_until = none;
  last_error = none;
  updated_at = now;
}

-- DurableRepo.MarkStockDecrementDelivered
unfoldable pub mark_stock_decrement_delivered : ℕ → ℕ → Durable → Durable
mark_stock_decrement_delivered id now d = record d {
  outbox = set_open (delivered_row now) id d.outbox;
}

abbrev pub postponed_row : ℕ → List ℕ → ℕ → StockDecrement → StockDecrement
postponed_row next_attempt_at last_error now e = record e {
  next_attempt_at = next_attempt_at;
  locked_until = none;
  last_error = some last_error;
  updated_at = now;
}

-- DurableRepo.RescheduleStockDecrement
unfoldable pub reschedule_stock_decrement : ℕ → ℕ → List ℕ → ℕ → Durable → Durable
reschedule_stock_decrement id next_attempt_at last_error now d = record d {
  outbox = set_open (postponed_row next_attempt_at last_error now) id d.outbox;
}
