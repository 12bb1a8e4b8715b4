-- ===== src/Models.antt =====
-- backend/internal/models: the errors, the statuses and the records of the domain.
-- Identifiers (products, users, tokens, orders) are only compared, so they are numbers: `empty_id`
-- stands for the empty text. Times are nanoseconds. A message is the list of its bytes.
pub mod Status
pub mod Result
use team_10_queue_serivce.Base.{ℕ, ◌/◌, ◌*◌, Bool, true, false, ◌||◌, Option, List, ◌==◌}
use Status.{RightStatus, MembershipStatus}
use team_10_queue_serivce.Base.Int.{ℤ}

-- errors.go. `joined` is errors.Join; `unavailable` is any failure of Redis, PostgreSQL or Avito
-- that the service does not look into, and `constraint_violation` a row that PostgreSQL refuses.
pub data Error : Type 0 where
  quantity_invalid token_not_found token_expired token_used forbidden stock_depleted : Error
  invalid_status quantity_exceeded membership_not_found no_pending_offer : Error
  concurrent_join product_not_found invalid_request cancelled : Error
  unavailable constraint_violation : Error
  queue_limit_reached : ℕ → Error
  joined : Error → Error → Error

-- errors.Is(err, ErrTokenNotFound)
unfoldable pub is_token_not_found : Error → Bool
is_token_not_found token_not_found = true
is_token_not_found (joined a b) = is_token_not_found a || is_token_not_found b
is_token_not_found _ = false

-- errors.Is(err, ErrInvalidStatus)
unfoldable pub is_invalid_status : Error → Bool
is_invalid_status invalid_status = true
is_invalid_status (joined a b) = is_invalid_status a || is_invalid_status b
is_invalid_status _ = false

abbrev pub empty_id : ℕ
empty_id = 0

-- The product under which a user's presence is claimed.
abbrev pub presence_claim_product : ℕ
presence_claim_product = 1

-- Durations, in nanoseconds.
abbrev pub millisecond : ℕ
millisecond = 1_000_000

abbrev pub second : ℕ
second = 1_000_000_000

-- Time.Unix and Time.UnixMilli
abbrev pub unix : ℕ → ℕ
unix t = t / second

abbrev pub unix_milli : ℕ → ℕ
unix_milli t = t / millisecond

pub record ExpiryClaim : Type 0 where
  pub product_id : ℕ
  pub user_id : ℕ
  pub deadline : ℕ
  pub lease_until : ℕ

pub record ProductStock : Type 0 where
  pub product_id : ℕ
  pub product_count : ℕ
  pub total_stock : ℕ
  pub updated_at : ℕ

pub record QueueMembership : Type 0 where
  pub id : ℕ
  pub product_id : ℕ
  pub user_id : ℕ
  pub status : MembershipStatus
  pub quantity : ℕ
  pub available_quantity : Option ℕ
  pub current_token : Option ℕ
  pub expires_at : Option ℕ
  pub created_at : ℕ
  pub updated_at : ℕ

pub record Right : Type 0 where
  pub token : ℕ
  pub user_id : ℕ
  pub product_id : ℕ
  pub quantity : ℕ
  pub status : RightStatus
  pub order_id : Option ℕ
  pub created_at : ℕ
  pub expires_at : ℕ
  pub used_at : Option ℕ

pub record StockDecrement : Type 0 where
  pub id : ℕ
  pub right_token : ℕ
  pub order_id : ℕ
  pub product_id : ℕ
  pub quantity : ℕ
  pub attempts : ℕ
  pub next_attempt_at : ℕ
  pub locked_until : Option ℕ
  pub delivered_at : Option ℕ
  pub last_error : Option (List ℕ)
  pub created_at : ℕ
  pub updated_at : ℕ

-- recovery_snapshot.go
pub record RecoverySnapshot : Type 0 where
  pub stocks : List ProductStock
  pub memberships : List QueueMembership
  pub rights : List Right

-- queue_stats.go
pub record QueueStats : Type 0 where
  pub waiting : ℕ
  pub holding_right : ℕ
  pub pending_offer : ℕ
  pub available : ℕ
  pub product_count : ℤ

-- user_queue.go
pub record UserQueue : Type 0 where
  pub membership : QueueMembership
  pub position : ℕ
  pub eta : ℕ

-- metrics.go
pub record ProductMetrics : Type 0 where
  pub total_stock : ℕ
  pub total_contenders : ℕ
  pub used_rights_count : ℕ
  pub expired_rights_count : ℕ
  pub sold_out_count : ℕ
  pub drop_off_count : ℕ
  pub avg_payment_time : Option ℕ
  pub avg_drop_off_time : Option ℕ
