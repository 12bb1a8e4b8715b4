-- ===== src/Service/Outbox.antt =====
-- stock_decrement_outbox.go: the delivery of the events to AvitoBackend.
use team_10_queue_serivce.Base.{
  ℕ, zero, suc, ◌+◌, ◌-◌, ◌*◌, ◌%◌, Bool, List, [], ◌∷◌, ◌++◌, Option, none, some, ltb, leb,
  if◌then◌else◌, take, length,
}
use team_10_queue_serivce.Models.{StockDecrement, unavailable, second}
use team_10_queue_serivce.Models.Result.{ok, with_rollback}
use team_10_queue_serivce.World.{
  DecrementCall, M, pure, raise, attempt, call, change_durable, collect, time_now, ◌>>=◌,
}
use team_10_queue_serivce.Postgres.Outbox.{
  claim_stock_decrements, mark_stock_decrement_delivered, reschedule_stock_decrement,
}
use team_10_queue_serivce.Service.Config.{QueueService}

-- An int64 is its word in two's complement, below `word_limit`; `sign_bit` is the first negative one.
abbrev pub word_limit : ℕ
word_limit = 18_446_744_073_709_551_616

abbrev pub sign_bit : ℕ
sign_bit = 9_223_372_036_854_775_808

abbrev pub lt_signed : ℕ → ℕ → Bool
lt_signed a b = ltb ((a + sign_bit) % word_limit) ((b + sign_bit) % word_limit)

-- The loop, with `rounds` still allowed by its first condition.
unfoldable pub double_delay : ℕ → ℕ → ℕ → ℕ
double_delay zero max_backoff delay = delay
double_delay (suc rounds) max_backoff delay =
    let next = double_delay rounds max_backoff (delay * 2 % word_limit) in
    if lt_signed delay max_backoff then next else delay

unfoldable pub stock_outbox_backoff : ℕ → ℕ → ℕ
unfolding double_delay
stock_outbox_backoff attempts max_backoff =
    if leb attempts 1
    then second
    else let delay = double_delay (attempts - 1) max_backoff second in
      if lt_signed max_backoff delay then max_backoff else delay

abbrev pub max_last_error_length : ℕ
max_last_error_length = 1024

-- truncateError
abbrev pub truncate_error : List ℕ → List ℕ
truncate_error message =
    if leb (length message) max_last_error_length
    then message
    else take max_last_error_length message

unfoldable pub claim_events : ℕ → ℕ → ℕ → M (List StockDecrement)
claim_events now until limit = call λ _ st.
    let (events, d) = claim_stock_decrements now until limit st.durable in
    (ok events, record st { durable = d })

unfoldable pub mark_delivered : ℕ → ℕ → M (Unit {0})
mark_delivered id now = change_durable λ _ d. ok (mark_stock_decrement_delivered id now d)

unfoldable pub reschedule_event : ℕ → ℕ → List ℕ → ℕ → M (Unit {0})
reschedule_event id next_attempt_at last_error now =
    change_durable λ _ d. ok (reschedule_stock_decrement id next_attempt_at last_error now d)

-- Behind the reply of AvitoBackend: none, or the message of an error.
abbrev pub settle_delivery : QueueService → StockDecrement → ℕ → Option (List ℕ) → M (Unit {0})
settle_delivery s event now none = mark_delivered event.id now
settle_delivery s event now (some message) = do
  rescheduled ← attempt (
      reschedule_event event.id
        (now + stock_outbox_backoff event.attempts s.stock_outbox_max_backoff)
        (truncate_error message) now)
  raise (with_rollback unavailable rescheduled)

abbrev pub call_of : StockDecrement → DecrementCall
call_of event = record {
  event_id = event.id;
  product_id = event.product_id;
  quantity = event.quantity;
}

-- avito.DecrementStock
unfoldable pub decrement_stock : QueueService → StockDecrement → M (Option (List ℕ))
decrement_stock s event w =
    (ok (s.decrement_reply event), record w { sent = w.sent ++ call_of event ∷ [] })

unfoldable pub deliver_stock_decrement : QueueService → StockDecrement → M (Unit {0})
unfolding decrement_stock
deliver_stock_decrement s event = do
  now ← time_now
  reply ← decrement_stock s event
  settle_delivery s event now reply

-- The errors of a batch are joined.
unfoldable pub deliver_events : QueueService → List StockDecrement → M (Unit {0})
unfolding deliver_stock_decrement
deliver_events s [] = pure tt
deliver_events s (e ∷ es) = collect (deliver_stock_decrement s e) (deliver_events s es)

unfoldable pub process_stock_decrement_outbox : QueueService → M (Unit {0})
unfolding deliver_events
process_stock_decrement_outbox s = do
  now ← time_now
  events ← claim_events now (now + s.stock_outbox_lease) s.stock_outbox_batch_size
  deliver_events s events
