-- ===== src/Examples/Streams.antt =====
-- Requests, streams and settings at concrete values.
use team_10_queue_serivce.Base.{
  ℕ, ◌*◌, ◌≡◌, ◌⊎◌, refl, true, false, List, [], ◌∷◌, none, some, ◌==◌, ==_sound,
}
use team_10_queue_serivce.Base.Int.{pos}
use team_10_queue_serivce.Models.Status.{declined}
use team_10_queue_serivce.Models.{ProductMetrics, unavailable, second}
use team_10_queue_serivce.Models.Result.{ok, err}
use team_10_queue_serivce.Presence.{SameHoldings}
use team_10_queue_serivce.Transport.Router.{Request, post, events, route}
use team_10_queue_serivce.Transport.Guarded.{route-anonymous}
use team_10_queue_serivce.Transport.Streams.{
  Round, keep_alive, tick, gone, stream_json, Reading, event_signal, stream, nothing_sent, Beat,
  stream_user_queues,
}
use team_10_queue_serivce.Transport.Streamed.{
  shown, attempted, is_missing, latest, all_news, stream_json-latest, is_orderly, stream-is_orderly,
}
use team_10_queue_serivce.Transport.Session.{stream_user_queues-SameHoldings}
use team_10_queue_serivce.Settings.{
  Config, ConfigError, validate, load, loaded, refused, service_of, run_expiration_worker, panicked,
}
use team_10_queue_serivce.Settings.Loaded.{IsChecked, IsApplied, load-IsApplied}
use team_10_queue_serivce.Examples.Shop.{service, shop, shop_with, member_8}

-- A stranger reports a payment.
abbrev forged : Request
forged = record {
  method = post;
  path = events 100;
  user_header = 0;
  user_query = 0;
  internal_header = 54;
  payload = record { quantity = none; product = none; event = some (true, 900) };
}

route-anonymous_example : (route service 55 (λ spans. none) forged shop).1.store ≡ shop.store
route-anonymous_example =
    route-anonymous service 55 (λ spans. none) forged shop refl (λ e. cc) (λ e. cc)

-- The write of the second update fails.
abbrev polls : List (Round ℕ)
polls =
    record { read = ok 4; written = true; wake = tick }
    ∷ record { read = ok 4; written = true; wake = keep_alive true }
    ∷ record { read = ok 5; written = false; wake = tick }
    ∷ record { read = ok 6; written = true; wake = tick }
    ∷ record { read = err unavailable; written = true; wake = gone }
    ∷ []

stream_json-latest_example :
    let fs = stream_json ◌==◌ polls none in
    ((shown ◌==◌ none fs ≡ latest ◌==◌ none polls) ⊎ (is_missing ◌==◌ false fs ≡ true))
    × (attempted ◌==◌ none fs ≡ latest ◌==◌ none polls)
    × (all_news ◌==◌ none fs ≡ true)
stream_json-latest_example = stream_json-latest ◌==◌ ==_sound polls none

-- User 8 waits, and drops off.
abbrev readings : List Reading
readings =
    record {
      queue = ok (record { membership = member_8; position = 1; eta = 0 });
      written = true;
      signal = event_signal;
    }
    ∷ record {
      queue =
          ok (record { membership = record member_8 { status = declined }; position = 0; eta = 0 });
      written = true;
      signal = event_signal;
    }
    ∷ []

stream-is_orderly_example : is_orderly nothing_sent (stream readings nothing_sent) ≡ true
stream-is_orderly_example = stream-is_orderly readings nothing_sent

-- The second ping is not answered.
abbrev beats : List Beat
beats = record { ponged = true; written = true } ∷ record { ponged = false; written = true } ∷ []

stream_user_queues-SameHoldings_example :
    let w = shop_with (false ∷ false ∷ true ∷ []) in
    SameHoldings 8 w.store (stream_user_queues service 8 true beats w).1.store
stream_user_queues-SameHoldings_example =
    stream_user_queues-SameHoldings service 8 true beats (shop_with (false ∷ false ∷ true ∷ []))

abbrev config : Config
config = record {
  env = 1;
  port = 2;
  pg_dsn = 3;
  redis_addr = 4;
  redis_password = 0;
  redis_db = pos 0;
  redis_pool_size = pos 100;
  redis_dial_timeout = pos (5 * second);
  right_ttl = pos (240 * second);
  user_presence_ping_interval = pos (20 * second);
  user_presence_timeout = pos (90 * second);
  offer_ttl = pos (120 * second);
  shutdown_timeout = pos (10 * second);
  avito_base_url = 5;
  internal_token = 55;
  expiration_interval = pos 0;
  stock_outbox_interval = pos second;
  stock_outbox_batch_size = pos 20;
  stock_outbox_lease = pos (30 * second);
  stock_outbox_max_backoff = pos (60 * second);
  avg_payment_time = pos (75 * second);
  max_active_queues = pos 3;
}

loaded_config : load (some config) ≡ loaded config
unfolding load validate
loaded_config = refl

load-IsApplied_example :
    ((load (some config) ≡ loaded config) × IsChecked config × IsApplied config (service_of config))
    ⊎ ((e : ConfigError) × (load (some config) ≡ refused e) × ¬ (IsChecked config))
load-IsApplied_example = load-IsApplied config

-- That configuration is accepted, and its expiration worker panics.
panics : (run_expiration_worker service config.expiration_interval 1 shop).0 ≡ ok panicked
unfolding run_expiration_worker
panics = refl

abbrev metrics : ProductMetrics
metrics = record {
  total_stock = 3;
  total_contenders = 3;
  used_rights_count = 0;
  expired_rights_count = 0;
  sold_out_count = 0;
  drop_off_count = 0;
  avg_payment_time = none;
  avg_drop_off_time = none;
}
