-- ===== src/Redis/State.antt =====
-- The keyspace of cache.go: one field for each family of keys, as a function of the key's parts.
use team_10_queue_serivce.Base.{ℕ, Option, none, some, List, []}
use team_10_queue_serivce.Base.Int.{ℤ, pos}
use team_10_queue_serivce.Models.{QueueMembership, Right}
use team_10_queue_serivce.Redis.SortedSet.{SortedSet, TimerKey}

-- `stock:<product>`; the counter of physical units can fall below zero by HINCRBY.
pub record Stock : Type 0 where
  pub product_count : ℤ
  pub available_units : ℕ

-- `membership-claim:<product>:<user>`: the owner's token, and when the key expires by itself.
pub record ClaimEntry : Type 0 where
  pub owner : ℕ
  pub until : ℕ

pub record Cache : Type 0 where
  pub stocks : ℕ → Option Stock
  pub queues : ℕ → SortedSet ℕ
  pub seqs : ℕ → ℕ
  pub members : ℕ → ℕ → Option QueueMembership
  pub rights : ℕ → Option Right
  pub slots : ℕ → List ℕ
  pub queued_products : ℕ → List ℕ
  pub claims : ℕ → ℕ → Option ClaimEntry
  pub presence : ℕ → Option ℕ
  pub scheduled : SortedSet TimerKey
  pub processing : SortedSet TimerKey
  pub deadlines : ℕ → ℕ → Option ℕ

-- Redis after a restart.
abbrev pub empty_cache : Cache
empty_cache = record {
  stocks = λ p. none;
  queues = λ p. [];
  seqs = λ p. 0;
  members = λ p u. none;
  rights = λ t. none;
  slots = λ u. [];
  queued_products = λ u. [];
  claims = λ p u. none;
  presence = λ u. none;
  scheduled = [];
  processing = [];
  deadlines = λ p u. none;
}

-- HGET of the two counters: a missing hash reads as zero.
abbrev pub stock_or_zero : Option Stock → Stock
stock_or_zero none = record { product_count = pos 0; available_units = 0 }
stock_or_zero (some s) = s
