-- ===== src/Examples/Outbox.antt =====
-- The outbox and AvitoBackend at concrete events.
use team_10_queue_serivce.Base.{
  ℕ, ◌-◌, ◌*◌, ◌^◌, ◌≡◌, refl, true, false, not, List, [], ◌∷◌, none, some, arith, contains,
  is_some,
}
use team_10_queue_serivce.Models.{StockDecrement, second}
use team_10_queue_serivce.Postgres.State.{Durable}
use team_10_queue_serivce.Postgres.Outbox.{claim_stock_decrements}
use team_10_queue_serivce.World.{World, time_now}
use team_10_queue_serivce.Service.Config.{QueueService}
use team_10_queue_serivce.Service.Outbox.{process_stock_decrement_outbox, stock_outbox_backoff}
use team_10_queue_serivce.Outbox.Backoff.{least, stock_outbox_backoff_lem}
use team_10_queue_serivce.Outbox.Rows.{all, ids_of}
use team_10_queue_serivce.Outbox.Leases.{claim_stock_decrements-excludes}
use team_10_queue_serivce.Outbox.Settled.{IsSettled, process_stock_decrement_outbox-IsSettled}
use team_10_queue_serivce.Outbox.Delivers.{Delivers, process_stock_decrement_outbox-Delivers}
use team_10_queue_serivce.Avito.{new_stock, count_in}
use team_10_queue_serivce.Avito.ExactlyOnce.{Decrement, take_each, units_once, take_each-once}
use team_10_queue_serivce.Examples.Shop.{service, shop, shop_with, shop_tables}

abbrev event_30 : StockDecrement
event_30 = record {
  id = 30;
  right_token = 100;
  order_id = 9;
  product_id = 7;
  quantity = 1;
  attempts = 0;
  next_attempt_at = 20 * second;
  locked_until = none;
  delivered_at = none;
  last_error = none;
  created_at = 20 * second;
  updated_at = 20 * second;
}

-- Event 31 has been delivered.
abbrev tables : Durable
tables = record shop_tables {
  outbox = record event_30 { id = 31; right_token = 99; delivered_at = some 1 } ∷ event_30 ∷ [];
}

abbrev with_events : World
with_events = record shop { store = record shop.store { durable = tables } }

abbrev failing : World
failing = record (shop_with (false ∷ true ∷ [])) { store = record shop.store { durable = tables } }

abbrev accepting : QueueService
accepting = record service { decrement_reply = λ e. none }

process_stock_decrement_outbox-Delivers_example :
    (events : List StockDecrement) × Delivers 30 7 1 with_events
      (process_stock_decrement_outbox accepting with_events)
      events
unfolding time_now
process_stock_decrement_outbox-Delivers_example =
    process_stock_decrement_outbox-Delivers accepting 30 7 1 with_events (λ e. refl) refl
      (omega arith) refl

process_stock_decrement_outbox-IsSettled_example :
    ((now until limit : ℕ)
      → contains 31 (ids_of (claim_stock_decrements now until limit tables).0) ≡ false)
    × IsSettled 31 (process_stock_decrement_outbox service failing).1.store.durable
process_stock_decrement_outbox-IsSettled_example =
    process_stock_decrement_outbox-IsSettled service 31 failing refl

claim_stock_decrements-excludes_example :
    let (first, leased) = claim_stock_decrements (40 * second) (70 * second) 50 tables in
    let (second, later) = claim_stock_decrements (69 * second) (99 * second) 50 leased in
    all (λ e. not (contains e.id (ids_of first))) second ≡ true
claim_stock_decrements-excludes_example =
    claim_stock_decrements-excludes (40 * second) (70 * second) 50 (69 * second) (99 * second) 50
      tables refl

stock_outbox_backoff_lem_example :
    stock_outbox_backoff 5 (60 * second) ≡ least (second * 2 ^ (5 - 1)) (60 * second)
stock_outbox_backoff_lem_example =
    stock_outbox_backoff_lem 5 (60 * second) (omega arith) (omega arith)

-- Key 30 comes twice.
abbrev deliveries : List Decrement
deliveries =
    record { key = 30; product_id = 7; quantity = 2 }
    ∷ record { key = 31; product_id = 7; quantity = 1 }
    ∷ record { key = 30; product_id = 7; quantity = 2 }
    ∷ []

take_each-once_example :
    count_in (take_each deliveries (new_stock 4)) 7
    ≡ count_in (new_stock 4) 7 - units_once 7 (λ k. is_some ((new_stock 4).processed k)) deliveries
take_each-once_example = take_each-once 7 deliveries (new_stock 4)
