-- ===== src/Settings.antt =====
-- internal/config/config.go, the constructor of queue_service.go, and the part of cmd/api/main.go that
-- builds the service from the configuration and runs its workers. Texts are only passed on, so they are
-- numbers. Durations and counts may be negative.
pub mod Loaded
use team_10_queue_serivce.Base.{
  ℕ, zero, suc, ◌*◌, Bool, not, List, [], ◌∷◌, Option, none, some, if◌then◌else◌,
}
use team_10_queue_serivce.Base.Int.{ℤ, pos, is_positive, leb_ℤ}
use team_10_queue_serivce.Models.{second}
use team_10_queue_serivce.World.{M, pure, attempt, ◌>>=◌}
use team_10_queue_serivce.Service.Config.{QueueService}
use team_10_queue_serivce.Service.Expiration.{process_expirations}
use team_10_queue_serivce.Service.Outbox.{process_stock_decrement_outbox}

pub record Config : Type 0 where
  pub env : ℕ
  pub port : ℕ
  pub pg_dsn : ℕ
  pub redis_addr : ℕ
  pub redis_password : ℕ
  pub redis_db : ℤ
  pub redis_pool_size : ℤ
  pub redis_dial_timeout : ℤ
  pub right_ttl : ℤ
  pub user_presence_ping_interval : ℤ
  pub user_presence_timeout : ℤ
  pub offer_ttl : ℤ
  pub shutdown_timeout : ℤ
  pub avito_base_url : ℕ
  pub internal_token : ℕ
  pub expiration_interval : ℤ
  pub stock_outbox_interval : ℤ
  pub stock_outbox_batch_size : ℤ
  pub stock_outbox_lease : ℤ
  pub stock_outbox_max_backoff : ℤ
  pub avg_payment_time : ℤ
  pub max_active_queues : ℤ

-- What parsing and validation complain of.
pub data ConfigError : Type 0 where
  parse_error : ConfigError
  bad_presence_ping_interval bad_presence_timeout bad_presence_timeout_order : ConfigError
  bad_outbox_interval bad_outbox_batch_size bad_outbox_lease bad_outbox_max_backoff : ConfigError
  bad_active_queues : ConfigError

-- Config.validate
unfoldable pub validate : Config → Option ConfigError
validate c =
    if not (is_positive c.user_presence_ping_interval)
    then some bad_presence_ping_interval
    else if not (is_positive c.user_presence_timeout)
    then some bad_presence_timeout
    else if leb_ℤ c.user_presence_timeout c.user_presence_ping_interval
    then some bad_presence_timeout_order
    else if not (is_positive c.stock_outbox_interval)
    then some bad_outbox_interval
    else if not (is_positive c.stock_outbox_batch_size)
    then some bad_outbox_batch_size
    else if not (is_positive c.stock_outbox_lease)
    then some bad_outbox_lease
    else if not (is_positive c.stock_outbox_max_backoff)
    then some bad_outbox_max_backoff
    else if not (is_positive c.max_active_queues)
    then some bad_active_queues
    else none

pub data Loading : Type 0 where
  loaded : Config → Loading
  refused : ConfigError → Loading

abbrev pub validated : Config → Option ConfigError → Loading
validated c none = loaded c
validated c (some e) = refused e

-- Load, with what env.Parse makes of the environment; none where it fails.
unfoldable pub load : Option Config → Loading
unfolding validate
load none = refused parse_error
load (some c) = validated c (validate c)

-- The settings of QueueService; the stores and the client are those of the model's QueueService.
pub record ServiceSettings : Type 0 where
  pub offer_ttl : ℤ
  pub payment_ttl : ℤ
  pub avg_payment_time : ℤ
  pub presence_timeout : ℤ
  pub stock_outbox_lease : ℤ
  pub stock_outbox_batch_size : ℤ
  pub stock_outbox_max_backoff : ℤ
  pub max_active_queues : ℤ

pub data ServiceOption : Type 0 where
  -- lease, batch size and greatest delay
  with_stock_outbox : ℤ → ℤ → ℤ → ServiceOption
  with_max_active_queues : ℤ → ServiceOption

abbrev pub positive_or : ℤ → ℤ → ℤ
positive_or fallback n = if is_positive n then n else fallback

unfoldable pub apply_option : ServiceOption → ServiceSettings → ServiceSettings
apply_option (with_stock_outbox lease batch_size max_backoff) s = record s {
  stock_outbox_lease = positive_or s.stock_outbox_lease lease;
  stock_outbox_batch_size = positive_or s.stock_outbox_batch_size batch_size;
  stock_outbox_max_backoff = positive_or s.stock_outbox_max_backoff max_backoff;
}
apply_option (with_max_active_queues limit) s = record s {
  max_active_queues = positive_or s.max_active_queues limit;
}

abbrev pub apply_options : List ServiceOption → ServiceSettings → ServiceSettings
apply_options [] s = s
apply_options (o ∷ os) s = apply_options os (apply_option o s)

-- NewQueueService
unfoldable pub new_queue_service : ℤ → ℤ → ℤ → ℤ → List ServiceOption → ServiceSettings
unfolding apply_option
new_queue_service offer_ttl payment_ttl avg_payment_time presence_timeout options =
    apply_options options (record {
      offer_ttl = offer_ttl;
      payment_ttl = payment_ttl;
      avg_payment_time = avg_payment_time;
      presence_timeout = presence_timeout;
      stock_outbox_lease = pos (30 * second);
      stock_outbox_batch_size = pos 50;
      stock_outbox_max_backoff = pos (60 * second);
      max_active_queues = pos 5;
    })

-- The service of run in main.go.
unfoldable pub service_of : Config → ServiceSettings
unfolding new_queue_service
service_of c =
    new_queue_service c.offer_ttl c.right_ttl c.avg_payment_time c.user_presence_timeout (
      with_stock_outbox c.stock_outbox_lease c.stock_outbox_batch_size c.stock_outbox_max_backoff
      ∷ with_max_active_queues c.max_active_queues
      ∷ [])

-- time.NewTicker panics if its interval is not positive.
pub data WorkerEnd : Type 0 where
  stopped panicked : WorkerEnd

abbrev pub run_ticks : M (Unit {0}) → ℕ → M WorkerEnd
run_ticks process zero = pure stopped
run_ticks process (suc ticks) = attempt process >>= λ logged. run_ticks process ticks

-- A worker until its context ends, after `ticks` of its ticker. Its errors are logged.
abbrev pub run_worker : M (Unit {0}) → ℤ → ℕ → M WorkerEnd
run_worker process interval ticks = attempt process >>= λ logged.
    if is_positive interval then run_ticks process ticks else pure panicked

unfoldable pub run_expiration_worker : QueueService → ℤ → ℕ → M WorkerEnd
run_expiration_worker s interval ticks = run_worker (process_expirations s) interval ticks

unfoldable pub run_stock_decrement_worker : QueueService → ℤ → ℕ → M WorkerEnd
run_stock_decrement_worker s interval ticks =
    run_worker (process_stock_decrement_outbox s) interval ticks
