-- ===== src/Redis/Scripts.antt =====
-- The Lua scripts of cache.go on stock, queues, memberships, slots and claims. A script is one atomic
-- step. What it publishes is left out: an event only tells clients to read again.
use team_10_queue_serivce.Base.{
  ℕ, ◌+◌, ◌-◌, Bool, true, false, ◌&&◌, List, [], ◌∷◌, Option, none, some, ltb, leb, ◌==◌,
  if◌then◌else◌, update, update₂, length, contains, set_add, set_remove,
}
use team_10_queue_serivce.Base.Int.{pos, is_zero}
use team_10_queue_serivce.Models.Status.{
  MembershipStatus, queued, right_active, offer_pending, purchased, sold_out, is_queued,
  is_right_active, ghost,
}
use team_10_queue_serivce.Models.{QueueMembership}
use team_10_queue_serivce.Redis.SortedSet.{SortedSet, TimerKey, zadd, zrem, id_key, timer_key}
use team_10_queue_serivce.Redis.State.{Cache, ClaimEntry, stock_or_zero}

-- What a newcomer gets: units for a right, units for an offer, and whether the product is sold out.
pub record Allocation : Type 0 where
  pub allocated : ℕ
  pub available : ℕ
  pub is_sold_out : Bool

abbrev nothing : Allocation
nothing = record { allocated = 0; available = 0; is_sold_out = false }

-- HINCRBY stock available_units, by a sum or a difference that the caller has computed.
abbrev pub set_available : ℕ → ℕ → Cache → Cache
set_available p n c = record c {
  stocks = update c.stocks p (some (record (stock_or_zero (c.stocks p)) { available_units = n }));
}

unfoldable pub init_stock_script : ℕ → ℕ → Cache → Cache
init_stock_script p total c = elim (c.stocks p) [
  | none ↦ record c {
    stocks =
        update c.stocks p (some (record { product_count = pos total; available_units = total }));
  }
  | some s ↦ c
]

-- The part of the script that takes units from `avail` available ones.
abbrev take_units : ℕ → ℕ → ℕ → Cache → Allocation × Cache
take_units p quantity avail c =
    if leb quantity avail
    then (record nothing { allocated = quantity }, set_available p (avail - quantity) c)
    else if ltb 0 avail
    then (record nothing { available = avail }, set_available p (avail - avail) c)
    else (nothing, c)

unfoldable pub allocate_script : ℕ → ℕ → Cache → Allocation × Cache
allocate_script p quantity c =
    let stock = stock_or_zero (c.stocks p) in
    if is_zero stock.product_count
    then (record nothing { is_sold_out = true }, c)
    else if ltb 0 (length (c.queues p))
    then (nothing, c)
    else take_units p quantity stock.available_units c

unfoldable pub enqueue_script : ℕ → ℕ → Cache → Cache
enqueue_script p u c =
    let seq = c.seqs p + 1 in
    record c {
      seqs = update c.seqs p seq;
      queues = update c.queues p (zadd seq u (c.queues p));
      queued_products = update c.queued_products u (set_add p (c.queued_products u));
    }

unfoldable pub remove_from_queue_script : ℕ → ℕ → Cache → Cache
remove_from_queue_script p u c = record c {
  queues = update c.queues p (zrem u (c.queues p));
  queued_products = update c.queued_products u (set_remove p (c.queued_products u));
}

unfoldable pub restore_available_units_script : ℕ → ℕ → Cache → Cache
restore_available_units_script p quantity c =
    set_available p ((stock_or_zero (c.stocks p)).available_units + quantity) c

unfoldable pub requeue_script : ℕ → ℕ → ℕ → Cache → Cache
requeue_script p u score c = record c {
  queues = update c.queues p (zadd score u (c.queues p));
  queued_products = update c.queued_products u (set_add p (c.queued_products u));
}

-- The reply of popAndAllocate: the head of the queue, what it got, its new status and its old score.
pub record Popped : Type 0 where
  pub user_id : ℕ
  pub allocated : ℕ
  pub available : ℕ
  pub status : MembershipStatus
  pub score : ℕ

abbrev pub gets : ℕ → ℕ → ℕ → ℕ → MembershipStatus → Popped
gets u score allocated available status = record {
  user_id = u;
  allocated = allocated;
  available = available;
  status = status;
  score = score;
}

-- What the script decides for a head that is queued for `quantity` units.
abbrev pub serve : ℕ → ℕ → ℕ → ℕ → Cache → Popped × Cache
serve p u score quantity c =
    let stock = stock_or_zero (c.stocks p) in
    let avail = stock.available_units in
    if is_zero stock.product_count
    then (gets u score 0 0 sold_out, remove_from_queue_script p u c)
    else if leb quantity avail
    then (
      gets u score quantity 0 right_active,
      remove_from_queue_script p u (set_available p (avail - quantity) c),
    )
    else if ltb 0 avail
    then (
      gets u score 0 avail offer_pending,
      remove_from_queue_script p u (set_available p (avail - avail) c),
    )
    else (gets u score 0 0 queued, c)

abbrev pub serve_member : ℕ → ℕ → ℕ → Option QueueMembership → Cache → Popped × Cache
serve_member p u score none c = (gets u score 0 0 ghost, remove_from_queue_script p u c)
serve_member p u score (some m) c =
    if is_queued m.status
    then serve p u score m.quantity c
    else (gets u score 0 0 m.status, remove_from_queue_script p u c)

abbrev pub pop_head : ℕ → SortedSet ℕ → Cache → Option Popped × Cache
pop_head p [] c = (none, c)
pop_head p ((score, u) ∷ rest) c =
    let (popped, c') = serve_member p u score (c.members p u) c in (some popped, c')

-- `none` is the reply for an empty queue.
unfoldable pub pop_and_allocate_script : ℕ → Cache → Option Popped × Cache
unfolding remove_from_queue_script
pop_and_allocate_script p c = pop_head p (c.queues p) c

-- 0, 1 or 2 in the script.
pub data SlotOutcome : Type 0 where
  refused fresh occupied : SlotOutcome

unfoldable pub occupy_queue_slot_script : ℕ → ℕ → ℕ → Cache → SlotOutcome × Cache
occupy_queue_slot_script u p limit c =
    if contains p (c.slots u)
    then (occupied, c)
    else if leb limit (length (c.slots u))
    then (refused, c)
    else (fresh, record c { slots = update c.slots u (set_add p (c.slots u)) })

abbrev pub is_live : ℕ → Option ClaimEntry → Bool
is_live now none = false
is_live now (some entry) = ltb now entry.until

-- SET key owner NX with a time to live.
unfoldable pub claim_set_nx : ℕ → ℕ → ℕ → ℕ → ℕ → Cache → Bool × Cache
claim_set_nx p u owner now ttl c = if is_live now (c.claims p u) then (false, c) else (
  true,
  record c { claims = update₂ c.claims p u (some (record { owner = owner; until = now + ttl })) },
)

abbrev pub is_owned : ℕ → ℕ → Option ClaimEntry → Bool
is_owned owner now none = false
is_owned owner now (some entry) = ltb now entry.until && (entry.owner == owner)

unfoldable pub release_membership_claim_script : ℕ → ℕ → ℕ → ℕ → Cache → Cache
release_membership_claim_script p u owner now c =
    if is_owned owner now (c.claims p u) then record c { claims = update₂ c.claims p u none } else c

abbrev pub has_token : ℕ → Option ℕ → Bool
has_token t none = false
has_token t (some s) = s == t

-- The membership that the script writes.
abbrev pub as_purchased : ℕ → QueueMembership → QueueMembership
as_purchased now m = record m {
  status = purchased;
  available_quantity = none;
  current_token = none;
  expires_at = none;
  updated_at = now;
}

abbrev pub mark_purchased : ℕ → ℕ → ℕ → ℕ → Option QueueMembership → Cache → Bool × Cache
mark_purchased p u token now none c = (false, c)
mark_purchased p u token now (some m) c =
    if has_token token m.current_token && is_right_active m.status
    then (
      true,
      record c {
        members = update₂ c.members p u (some (as_purchased now m));
        scheduled = zrem {K = TimerKey} (p, u) c.scheduled;
        slots = update c.slots u (set_remove p (c.slots u));
      },
    )
    else (false, c)

unfoldable pub mark_purchased_if_current_token_script : ℕ → ℕ → ℕ → ℕ → Cache → Bool × Cache
mark_purchased_if_current_token_script p u token now c =
    mark_purchased p u token now (c.members p u) c

-- The queue that recovery writes: scores 1, 2, … in the order of the users.
unfoldable pub restored_queue : ℕ → List ℕ → SortedSet ℕ → SortedSet ℕ
restored_queue score [] z = z
restored_queue score (u ∷ us) z = restored_queue (score + 1) us (zadd score u z)

abbrev drop_product : ℕ → SortedSet ℕ → (ℕ → List ℕ) → ℕ → List ℕ
drop_product p [] index = index
drop_product p ((s, u) ∷ z) index = drop_product p z (update index u (set_remove p (index u)))

unfoldable pub restore_product_state_script : ℕ → ℕ → ℕ → List ℕ → Cache → Cache
unfolding restored_queue
restore_product_state_script p product_count available users c = record c {
  stocks =
      update c.stocks p
        (some (record { product_count = pos product_count; available_units = available }));
  queues = update c.queues p (restored_queue 1 users []);
  seqs = update c.seqs p (length users);
  queued_products = drop_product p (c.queues p) c.queued_products;
}
