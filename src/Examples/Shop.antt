-- ===== src/Examples/Shop.antt =====
-- The data of the examples.
use team_10_queue_serivce.Base.{
  ◌*◌, Bool, false, List, [], ◌∷◌, none, some, update, update₂, ◌==◌, if◌then◌else◌,
}
use team_10_queue_serivce.Base.Int.{pos}
use team_10_queue_serivce.Models.Status.{active, queued, right_active, offer_pending}
use team_10_queue_serivce.Models.{QueueMembership, Right, ExpiryClaim, second}
use team_10_queue_serivce.Redis.State.{Cache, empty_cache}
use team_10_queue_serivce.Postgres.State.{Durable, empty_tables}
use team_10_queue_serivce.World.{World}
use team_10_queue_serivce.Service.Config.{QueueService}

abbrev pub service : QueueService
service = record {
  offer_ttl = 60 * second;
  payment_ttl = 300 * second;
  avg_payment_time = 30 * second;
  presence_timeout = 90 * second;
  stock_outbox_lease = 30 * second;
  stock_outbox_batch_size = 50;
  stock_outbox_max_backoff = 60 * second;
  max_active_queues = 5;
  initial_stock = λ p. if p == 7 then 3 else 0;
  decrement_reply = λ e. if e.attempts == 1 then some (98 ∷ 97 ∷ 100 ∷ []) else none;
  others = λ n st. st;
  is_cancelled = λ n. false;
}

abbrev pub right_of_5 : Right
right_of_5 = record {
  token = 100;
  user_id = 5;
  product_id = 7;
  quantity = 1;
  status = active;
  order_id = none;
  created_at = 10 * second;
  expires_at = 310 * second;
  used_at = none;
}

abbrev pub member_5 : QueueMembership
member_5 = record {
  id = 0;
  product_id = 7;
  user_id = 5;
  status = right_active;
  quantity = 1;
  available_quantity = none;
  current_token = some 100;
  expires_at = some (310 * second);
  created_at = 10 * second;
  updated_at = 10 * second;
}

abbrev pub member_6 : QueueMembership
member_6 = record {
  id = 0;
  product_id = 7;
  user_id = 6;
  status = offer_pending;
  quantity = 3;
  available_quantity = some 2;
  current_token = none;
  expires_at = some (80 * second);
  created_at = 20 * second;
  updated_at = 20 * second;
}

abbrev pub member_8 : QueueMembership
member_8 = record {
  id = 0;
  product_id = 7;
  user_id = 8;
  status = queued;
  quantity = 1;
  available_quantity = none;
  current_token = none;
  expires_at = none;
  created_at = 30 * second;
  updated_at = 30 * second;
}

abbrev pub shop_cache : Cache
shop_cache = record empty_cache {
  stocks =
      update empty_cache.stocks 7 (some (record { product_count = pos 3; available_units = 0 }));
  queues = update empty_cache.queues 7 ((1, 8) ∷ []);
  seqs = update empty_cache.seqs 7 1;
  members =
      update₂ (update₂ (update₂ empty_cache.members 7 5 (some member_5)) 7 6 (some member_6)) 7 8
        (some member_8);
  rights = update empty_cache.rights 100 (some right_of_5);
  slots = update (update (update empty_cache.slots 5 (7 ∷ [])) 6 (7 ∷ [])) 8 (7 ∷ []);
  queued_products = update empty_cache.queued_products 8 (7 ∷ []);
}

abbrev pub shop_tables : Durable
shop_tables = record {
  rights = right_of_5 ∷ [];
  memberships =
      record member_5 { id = 1 } ∷ record member_6 { id = 2 } ∷ record member_8 { id = 3 } ∷ [];
  next_membership_id = 4;
  stocks =
      record { product_id = 7; product_count = 3; total_stock = 3; updated_at = 5 * second } ∷ [];
  outbox = [];
}

-- Time 40 s; `faults` says which calls fail.
abbrev pub shop_with : List Bool → World
shop_with faults = record {
  store = record { cache = shop_cache; durable = shop_tables };
  faults = faults;
  clock = 40 * second;
  elapsed = [];
  next_uuid = 200;
  sent = [];
}

abbrev pub shop : World
shop = shop_with []

-- Before anyone has asked for anything.
abbrev pub opening : World
opening = record {
  store = record { cache = empty_cache; durable = empty_tables };
  faults = [];
  clock = 40 * second;
  elapsed = [];
  next_uuid = 200;
  sent = [];
}

abbrev pub timer_of_6 : ExpiryClaim
timer_of_6 = record {
  product_id = 7;
  user_id = 6;
  deadline = 80 * second;
  lease_until = 120 * second;
}
