-- ===== src/Settings/Loaded.antt =====
-- What a configuration that Load accepts makes of the service: config.go and NewQueueService.
use team_10_queue_serivce.Base.{
  ◌≡◌, ◌⊎◌, ◌∙◌, refl, ap, sym, Bool, true, false, not, Option, none, some, if◌then◌else◌, inl, inr,
  Option-cases,
}
use team_10_queue_serivce.Base.Int.{is_positive, leb_ℤ}
use team_10_queue_serivce.Settings.{
  Config, ConfigError, bad_presence_ping_interval, bad_presence_timeout, bad_presence_timeout_order,
  bad_outbox_interval, bad_outbox_batch_size, bad_outbox_lease, bad_outbox_max_backoff,
  bad_active_queues, validate, loaded, refused, validated, load, ServiceSettings, service_of,
  apply_option, new_queue_service,
}

-- A check that passes.
passes :
    (b : Bool) (e : ConfigError) (rest : Option ConfigError)
    → (if not b then some e else rest) ≡ none
    → (b ≡ true) × (rest ≡ none)
passes true e rest h = (refl, h)
passes false e rest h = cc

passes_not :
    (b : Bool) (e : ConfigError) (rest : Option ConfigError)
    → (if b then some e else rest) ≡ none
    → (b ≡ false) × (rest ≡ none)
passes_not true e rest h = cc
passes_not false e rest h = (refl, h)

-- The checks of a configuration.
pub record IsChecked (c : Config) : Type 0 where
  pub ping : is_positive c.user_presence_ping_interval ≡ true
  pub timeout : is_positive c.user_presence_timeout ≡ true
  pub order : leb_ℤ c.user_presence_timeout c.user_presence_ping_interval ≡ false
  pub interval : is_positive c.stock_outbox_interval ≡ true
  pub batch_size : is_positive c.stock_outbox_batch_size ≡ true
  pub lease : is_positive c.stock_outbox_lease ≡ true
  pub max_backoff : is_positive c.stock_outbox_max_backoff ≡ true
  pub limit : is_positive c.max_active_queues ≡ true

validate-IsChecked : (c : Config) → validate c ≡ none → IsChecked c
unfolding validate
validate-IsChecked c h =
    let (ping, h1) = passes _ bad_presence_ping_interval _ h in
    let (timeout, h2) = passes _ bad_presence_timeout _ h1 in
    let (order, h3) = passes_not _ bad_presence_timeout_order _ h2 in
    let (interval, h4) = passes _ bad_outbox_interval _ h3 in
    let (batch_size, h5) = passes _ bad_outbox_batch_size _ h4 in
    let (lease, h6) = passes _ bad_outbox_lease _ h5 in
    let (max_backoff, h7) = passes _ bad_outbox_max_backoff _ h6 in
    let (limit, h8) = passes _ bad_active_queues _ h7 in
    record {
      ping = ping;
      timeout = timeout;
      order = order;
      interval = interval;
      batch_size = batch_size;
      lease = lease;
      max_backoff = max_backoff;
      limit = limit;
    }

-- The service works by the configuration, and not by a default.
pub record IsApplied (c : Config) (s : ServiceSettings) : Type 0 where
  pub lease : s.stock_outbox_lease ≡ c.stock_outbox_lease
  pub batch_size : s.stock_outbox_batch_size ≡ c.stock_outbox_batch_size
  pub max_backoff : s.stock_outbox_max_backoff ≡ c.stock_outbox_max_backoff
  pub limit : s.max_active_queues ≡ c.max_active_queues
  pub timeout : s.presence_timeout ≡ c.user_presence_timeout
  pub right_ttl : s.payment_ttl ≡ c.right_ttl
  pub offer_ttl : s.offer_ttl ≡ c.offer_ttl
  pub avg_payment_time : s.avg_payment_time ≡ c.avg_payment_time

service_of-IsApplied : (c : Config) → IsChecked c → IsApplied c (service_of c)
unfolding service_of new_queue_service apply_option
service_of-IsApplied c k = record {
  lease = rw k.lease refl;
  batch_size = rw k.batch_size refl;
  max_backoff = rw k.max_backoff refl;
  limit = rw k.limit refl;
  timeout = refl;
  right_ttl = refl;
  offer_ttl = refl;
  avg_payment_time = refl;
}

IsChecked-validate : (c : Config) → IsChecked c → validate c ≡ none
unfolding validate
IsChecked-validate c k =
    rw
      (
        validate, k.ping, k.timeout, k.order, k.interval, k.batch_size, k.lease, k.max_backoff,
        k.limit,
      )
      refl

-- Load accepts a configuration that was parsed if its checks hold, and refuses it otherwise. The checks
-- are that a user's presence outlasts the interval of its pings, and that both, and the outbox's interval,
-- batch size, lease and greatest delay and the limit on queues are positive. The service that main builds
-- from an accepted configuration has, for each of its eight settings, the value of the configuration, and
-- no default.
pub load-IsApplied :
    (c : Config)
    → ((load (some c) ≡ loaded c) × IsChecked c × IsApplied c (service_of c))
      ⊎ ((e : ConfigError) × (load (some c) ≡ refused e) × ¬ (IsChecked c))
unfolding load
load-IsApplied c = elim (Option-cases (validate c)) [
  | inl e ↦
      let checked = validate-IsChecked c e in
      inl (ap (validated c) e, checked, service_of-IsApplied c checked)
  | inr (x, e) ↦ inr (x, ap (validated c) e, λ k. none-some x (sym (IsChecked-validate c k) ∙ e))
]
  where
    none-some : (x : ConfigError) → none ≡ some x → ⊥
    none-some x h = cc
