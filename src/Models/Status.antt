-- ===== src/Models/Status.antt =====
-- backend/internal/models/status.go. A status is a text; the texts that name no status are `other`.
use team_10_queue_serivce.Base.{ℕ, Bool, true, false}

pub data RightStatus : Type 0 where
  active expired used : RightStatus
  other : ℕ → RightStatus

pub data MembershipStatus : Type 0 where
  queued right_active offer_pending declined purchased sold_out : MembershipStatus
  other : ℕ → MembershipStatus

-- RightStatus.Valid
abbrev pub right_valid : RightStatus → Bool
right_valid (RightStatus.other s) = false
right_valid _ = true

-- MembershipStatus.Valid
abbrev pub membership_valid : MembershipStatus → Bool
membership_valid (MembershipStatus.other s) = false
membership_valid _ = true

unfoldable pub is_terminal : MembershipStatus → Bool
is_terminal declined = true
is_terminal purchased = true
is_terminal sold_out = true
is_terminal _ = false

abbrev pub is_active : RightStatus → Bool
is_active active = true
is_active _ = false

abbrev pub is_queued : MembershipStatus → Bool
is_queued queued = true
is_queued _ = false

abbrev pub is_right_active : MembershipStatus → Bool
is_right_active right_active = true
is_right_active _ = false

abbrev pub is_offer_pending : MembershipStatus → Bool
is_offer_pending offer_pending = true
is_offer_pending _ = false

abbrev pub is_sold_out : MembershipStatus → Bool
is_sold_out sold_out = true
is_sold_out _ = false

-- The reply of a Lua script for a user with no membership.
abbrev pub ghost : MembershipStatus
ghost = MembershipStatus.other 0
