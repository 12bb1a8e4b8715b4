-- ===== src/Transport/Response.antt =====
-- response.go and dto.go. An absent field of a body is empty or 0.
use team_10_queue_serivce.Base.{
  ℕ, ◌/◌, Bool, true, false, ◌||◌, List, Option, none, some, if◌then◌else◌, get_or, map,
}
use team_10_queue_serivce.Base.Int.{ℤ}
use team_10_queue_serivce.Models.Status.{MembershipStatus, right_active, sold_out}
use team_10_queue_serivce.Models.{
  Error, quantity_invalid, token_not_found, token_expired, token_used, forbidden, stock_depleted,
  invalid_status, quantity_exceeded, membership_not_found, no_pending_offer, concurrent_join,
  product_not_found, invalid_request, queue_limit_reached, joined, QueueMembership, Right,
  UserQueue, QueueStats, ProductMetrics, second, empty_id,
}

-- errors.Is, for each case of the switch of writeError.
abbrev pub is_bad_request : Error → Bool
is_bad_request quantity_invalid = true
is_bad_request quantity_exceeded = true
is_bad_request invalid_request = true
is_bad_request (joined a b) = is_bad_request a || is_bad_request b
is_bad_request _ = false

abbrev pub is_forbidden : Error → Bool
is_forbidden forbidden = true
is_forbidden (joined a b) = is_forbidden a || is_forbidden b
is_forbidden _ = false

abbrev pub is_conflict : Error → Bool
is_conflict no_pending_offer = true
is_conflict invalid_status = true
is_conflict concurrent_join = true
is_conflict (queue_limit_reached n) = true
is_conflict (joined a b) = is_conflict a || is_conflict b
is_conflict _ = false

abbrev pub is_depleted : Error → Bool
is_depleted stock_depleted = true
is_depleted (joined a b) = is_depleted a || is_depleted b
is_depleted _ = false

abbrev pub is_not_found : Error → Bool
is_not_found membership_not_found = true
is_not_found token_not_found = true
is_not_found token_expired = true
is_not_found token_used = true
is_not_found product_not_found = true
is_not_found (joined a b) = is_not_found a || is_not_found b
is_not_found _ = false

unfoldable pub status_of : Error → ℕ
status_of e =
    if is_bad_request e
    then 400
    else if is_forbidden e
    then 403
    else if is_conflict e
    then 409
    else if is_depleted e
    then 409
    else if is_not_found e
    then 404
    else 500

-- errors.As for the error of the queue limit: the first in the join.
abbrev pub first_limit : Option ℕ → Option ℕ → Option ℕ
first_limit none o = o
first_limit (some n) o = some n

abbrev pub limit_of : Error → Option ℕ
limit_of (queue_limit_reached n) = some n
limit_of (joined a b) = first_limit (limit_of a) (limit_of b)
limit_of _ = none

pub record MembershipResponse : Type 0 where
  pub status : MembershipStatus
  pub token : ℕ
  pub quantity : ℕ
  pub available_quantity : ℕ
  pub expires_at : Option ℕ
  pub position : ℕ
  pub eta_seconds : ℕ

pub record StatsResponse : Type 0 where
  pub waiting : ℕ
  pub holding_right : ℕ
  pub pending_offer : ℕ
  pub available : ℕ
  pub product_count : ℤ

-- The averages are in seconds.
pub record ProductMetricsResponse : Type 0 where
  pub total_stock : ℕ
  pub total_contenders : ℕ
  pub used_rights_count : ℕ
  pub expired_rights_count : ℕ
  pub sold_out_count : ℕ
  pub drop_off_count : ℕ
  pub avg_payment_time : Option ℕ
  pub avg_drop_off_time : Option ℕ

pub data Body : Type 0 where
  no_body valid_body : Body
  membership_body : MembershipResponse → Body
  limit_body : ℕ → Body
  queues_body : List (ℕ × MembershipResponse) → Body
  stats_body : StatsResponse → Body
  metrics_body : ProductMetricsResponse → Body

abbrev pub response_of : MembershipStatus → MembershipResponse
response_of status = record {
  status = status;
  token = empty_id;
  quantity = 0;
  available_quantity = 0;
  expires_at = none;
  position = 0;
  eta_seconds = 0;
}

abbrev pub body_of_limit : Option ℕ → Body
body_of_limit none = no_body
body_of_limit (some n) = limit_body n

-- writeError
unfoldable pub write_error : Error → ℕ × Body
unfolding status_of
write_error e = (
  status_of e,
  if is_depleted e then membership_body (response_of sold_out) else body_of_limit (limit_of e),
)

unfoldable pub new_membership_response : QueueMembership → MembershipResponse
new_membership_response m = record (response_of m.status) {
  token = get_or empty_id m.current_token;
  quantity = m.quantity;
  available_quantity = get_or 0 m.available_quantity;
  expires_at = m.expires_at;
}

unfoldable pub new_right_response : Right → MembershipResponse
new_right_response r = record (response_of right_active) {
  token = r.token;
  quantity = r.quantity;
  expires_at = some r.expires_at;
}

-- The product of the row, and its membership with the place in the queue.
unfoldable pub new_user_queue_response : UserQueue → ℕ × MembershipResponse
unfolding new_membership_response
new_user_queue_response q = (
  q.membership.product_id,
  record (new_membership_response q.membership) {
    position = q.position;
    eta_seconds = q.eta / second;
  },
)

unfoldable pub new_user_queues_response : List UserQueue → List (ℕ × MembershipResponse)
unfolding new_user_queue_response
new_user_queues_response qs = map (λ q. new_user_queue_response q) qs

unfoldable pub new_stats_response : QueueStats → StatsResponse
new_stats_response s = record {
  waiting = s.waiting;
  holding_right = s.holding_right;
  pending_offer = s.pending_offer;
  available = s.available;
  product_count = s.product_count;
}

-- int(Duration.Seconds())
abbrev pub whole_seconds : Option ℕ → Option ℕ
whole_seconds none = none
whole_seconds (some t) = some (t / second)

unfoldable pub new_product_metrics_response : ProductMetrics → ProductMetricsResponse
new_product_metrics_response m = record {
  total_stock = m.total_stock;
  total_contenders = m.total_contenders;
  used_rights_count = m.used_rights_count;
  expired_rights_count = m.expired_rights_count;
  sold_out_count = m.sold_out_count;
  drop_off_count = m.drop_off_count;
  avg_payment_time = whole_seconds m.avg_payment_time;
  avg_drop_off_time = whole_seconds m.avg_drop_off_time;
}
