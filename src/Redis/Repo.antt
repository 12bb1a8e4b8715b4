-- ===== src/Redis/Repo.antt =====
-- The methods of CacheRepo: each is one call of Redis. Keys are built from their parts here, and
-- replies are decoded.
use team_10_queue_serivce.Base.{
  ℕ, ◌+◌, ◌*◌, Bool, true, false, List, [], ◌∷◌, Option, none, some, ◌==◌, if◌then◌else◌, update,
  update₂, set_add, set_remove, map, length,
}
use team_10_queue_serivce.Base.Int.{decrease}
use team_10_queue_serivce.Models.Status.{is_terminal}
use team_10_queue_serivce.Models.{
  QueueMembership, Right, ExpiryClaim, token_not_found, membership_not_found, empty_id, unix,
  unix_milli, second,
}
use team_10_queue_serivce.Models.Result.{Result, ok, err}
use team_10_queue_serivce.Redis.SortedSet.{SortedSet, TimerKey, zadd, zrem, zrank, timer_key}
use team_10_queue_serivce.Redis.State.{Cache, Stock, stock_or_zero}
use team_10_queue_serivce.Redis.Scripts.{
  Allocation, Popped, SlotOutcome, refused, fresh, occupied, init_stock_script, allocate_script,
  enqueue_script, remove_from_queue_script, restore_available_units_script, requeue_script,
  pop_and_allocate_script, occupy_queue_slot_script, claim_set_nx, release_membership_claim_script,
  mark_purchased_if_current_token_script, restore_product_state_script,
}
use team_10_queue_serivce.Redis.Timers.{
  claim_expired_script, ack_expired_script, nack_expired_script, reclaim_stale_expired_script,
  refresh_expiry_timer_script,
}
use team_10_queue_serivce.World.{M, on_cache, change_cache, read_cache, ◌>>=◌, pure}

unfoldable pub init_stock : ℕ → ℕ → M (Unit {0})
init_stock p total = change_cache (init_stock_script p total)

unfoldable pub try_allocate : ℕ → ℕ → M Allocation
try_allocate p quantity = on_cache λ now. allocate_script p quantity

-- HINCRBY product_count -quantity
unfoldable pub commit_purchase : ℕ → ℕ → M (Unit {0})
commit_purchase p quantity = change_cache λ c.
    let stock = stock_or_zero (c.stocks p) in
    record c {
      stocks =
          update c.stocks p
            (some (record stock { product_count = decrease stock.product_count quantity }));
    }

unfoldable pub enqueue : ℕ → ℕ → M (Unit {0})
enqueue p u = change_cache (enqueue_script p u)

unfoldable pub remove_from_queue : ℕ → ℕ → M (Unit {0})
remove_from_queue p u = change_cache (remove_from_queue_script p u)

unfoldable pub list_queued_products : ℕ → M (List ℕ)
list_queued_products u = read_cache λ c. ok (c.queued_products u)

unfoldable pub set_user_presence_deadline : ℕ → ℕ → M (Unit {0})
set_user_presence_deadline u deadline =
    change_cache λ c. record c { presence = update c.presence u (some (unix deadline)) }

abbrev from_unix : Option ℕ → Option ℕ
from_unix none = none
from_unix (some s) = some (s * second)

unfoldable pub get_user_presence_deadline : ℕ → M (Option ℕ)
get_user_presence_deadline u = read_cache λ c. ok (from_unix (c.presence u))

-- The hash has no field for the row's key; a terminal status gives the slot back.
abbrev pub put_membership : QueueMembership → Cache → Cache
put_membership m c = record c {
  members = update₂ c.members m.product_id m.user_id (some (record m { id = 0 }));
  slots = update c.slots m.user_id (
      if is_terminal m.status
      then set_remove m.product_id (c.slots m.user_id)
      else set_add m.product_id (c.slots m.user_id));
}

unfoldable pub set_membership : QueueMembership → M (Unit {0})
unfolding is_terminal
set_membership m = change_cache (put_membership m)

abbrev pub found : {A : Type 0} → Option A → Result A
found none = err token_not_found
found (some a) = ok a

unfoldable pub get_membership : ℕ → ℕ → M QueueMembership
get_membership p u = read_cache λ c. found (c.members p u)

unfoldable pub mark_purchased_if_current_token : Right → ℕ → M Bool
mark_purchased_if_current_token right now =
    on_cache
      λ _. mark_purchased_if_current_token_script right.product_id right.user_id right.token now

unfoldable pub set_right : Right → M (Unit {0})
set_right right = change_cache λ c. record c { rights = update c.rights right.token (some right) }

unfoldable pub get_right : ℕ → M Right
get_right token = read_cache λ c. found (c.rights token)

-- An event is an invalidation signal, so publishing changes no state; it can fail.
unfoldable pub publish_event : ℕ → ℕ → M (Unit {0})
publish_event p u = change_cache λ c. c

unfoldable pub add_to_expiry_timer : ℕ → ℕ → ℕ → M (Unit {0})
add_to_expiry_timer p u expires_at =
    change_cache
      λ c. record c { scheduled = zadd {K = TimerKey} (unix expires_at) (p, u) c.scheduled }

unfoldable pub refresh_expiry_timer : ℕ → ℕ → ℕ → M Bool
refresh_expiry_timer p u expires_at =
    on_cache λ now. refresh_expiry_timer_script p u (unix expires_at)

unfoldable pub remove_from_expiry_timer : ℕ → ℕ → M (Unit {0})
remove_from_expiry_timer p u =
    change_cache λ c. record c { scheduled = zrem {K = TimerKey} (p, u) c.scheduled }

unfoldable pub restore_available_units : ℕ → ℕ → M (Unit {0})
restore_available_units p quantity = change_cache (restore_available_units_script p quantity)

-- A head with the empty user id is answered like an empty queue.
abbrev pub named_user : Option Popped → Option Popped
named_user none = none
named_user (some r) = if r.user_id == empty_id then none else some r

unfoldable pub pop_and_allocate : ℕ → M (Option Popped)
pop_and_allocate p =
    on_cache λ now c. let (r, c') = pop_and_allocate_script p c in (named_user r, c')

unfoldable pub requeue : ℕ → ℕ → ℕ → M (Unit {0})
requeue p u score = change_cache (requeue_script p u score)

abbrev pub index_queue : ℕ → List ℕ → Cache → Cache
index_queue p [] c = c
index_queue p (u ∷ us) c =
    index_queue p us
      (record c { queued_products = update c.queued_products u (set_add p (c.queued_products u)) })

-- The script, and then the pipeline that fills the users' index.
unfoldable pub restore_product_state : ℕ → ℕ → ℕ → List ℕ → M (Unit {0})
restore_product_state p product_count available users =
    change_cache (restore_product_state_script p product_count available users) >>= λ _.
    change_cache (index_queue p users)

-- Whether the slot was granted, and whether it is a fresh one.
abbrev decode_slot : SlotOutcome → Bool × Bool
decode_slot refused = (false, false)
decode_slot fresh = (true, true)
decode_slot occupied = (true, false)

unfoldable pub try_occupy_queue_slot : ℕ → ℕ → ℕ → M (Bool × Bool)
try_occupy_queue_slot u p limit =
    on_cache λ now c. let (r, c') = occupy_queue_slot_script u p limit c in (decode_slot r, c')

unfoldable pub release_queue_slot : ℕ → ℕ → M (Unit {0})
release_queue_slot u p =
    change_cache λ c. record c { slots = update c.slots u (set_remove p (c.slots u)) }

-- SCAN and DEL of every slot set, as one call: that some of them are deleted before one fails is left
-- out.
unfoldable pub reset_queue_slots : M (Unit {0})
reset_queue_slots = change_cache λ c. record c { slots = λ u. [] }

unfoldable pub reset_expiry_timers : M (Unit {0})
reset_expiry_timers = change_cache λ c. record c {
  scheduled = [];
  processing = [];
  deadlines = λ p u. none;
  queued_products = λ u. [];
}

-- The 0-indexed rank and the available units.
abbrev pub metrics_at : Option ℕ → ℕ → Result (ℕ × ℕ)
metrics_at none available = err membership_not_found
metrics_at (some rank) available = ok (rank, available)

unfoldable pub get_queue_metrics : ℕ → ℕ → M (ℕ × ℕ)
get_queue_metrics p u =
    read_cache λ c. metrics_at (zrank u (c.queues p)) (stock_or_zero (c.stocks p)).available_units

unfoldable pub get_stock : ℕ → M Stock
get_stock p = read_cache λ c. found (c.stocks p)

unfoldable pub claim_membership : ℕ → ℕ → ℕ → ℕ → M Bool
claim_membership p u owner ttl = on_cache λ now. claim_set_nx p u owner now ttl

unfoldable pub release_membership_claim : ℕ → ℕ → ℕ → M (Unit {0})
release_membership_claim p u owner =
    on_cache λ now c. (tt, release_membership_claim_script p u owner now c)

abbrev as_claim : ℕ → ℕ × TimerKey → ExpiryClaim
as_claim until (deadline, (p, u)) = record {
  product_id = p;
  user_id = u;
  deadline = deadline * second;
  lease_until = until;
}

unfoldable pub claim_expired : ℕ → ℕ → ℕ → M (List ExpiryClaim)
claim_expired now lease limit = on_cache λ _ c.
    let (due, c') = claim_expired_script (unix now) (unix_milli (now + lease)) limit c in
    (map (as_claim (now + lease)) due, c')

unfoldable pub ack_expired : List ExpiryClaim → M (Unit {0})
ack_expired [] = pure tt
ack_expired (claim ∷ claims) = change_cache (ack_expired_script (claim ∷ claims))

unfoldable pub nack_expired : List ExpiryClaim → ℕ → M (Unit {0})
nack_expired [] retry_at = pure tt
nack_expired (claim ∷ claims) retry_at =
    change_cache (nack_expired_script (unix retry_at) (claim ∷ claims))

unfoldable pub reclaim_stale_expired : ℕ → M (Unit {0})
reclaim_stale_expired now = change_cache (reclaim_stale_expired_script (unix_milli now) (unix now))

abbrev pub head_of : SortedSet ℕ → Result ℕ
head_of [] = err token_not_found
head_of ((score, u) ∷ q) = ok u

-- GetFirstInQueue: ZRANGE 0 0
unfoldable pub get_first_in_queue : ℕ → M ℕ
get_first_in_queue p = read_cache λ c. head_of (c.queues p)

-- CountQueueSlots: SCARD
unfoldable pub count_queue_slots : ℕ → M ℕ
count_queue_slots u = read_cache λ c. ok (length (c.slots u))
