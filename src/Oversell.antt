-- ===== src/Oversell.antt =====
-- The units of a product: those in the pool of Redis, those that PostgreSQL holds for a right or an
-- offer, and those that a running transition has taken and not yet written down.
pub mod Held
pub mod Calls
pub mod Pool
pub mod Transactions
pub mod Neutral
pub mod Steps
pub mod Advance
pub mod Join
pub mod Payment
pub mod Ready
pub mod Leave
pub mod Accept
pub mod Expiration
pub mod Theorems
use team_10_queue_serivce.Base.{
  ℕ, ◌+◌, ◌≤◌, ◌≡◌, Bool, true, false, ◌&&◌, List, [], ◌∷◌, Option, none, some, ◌==◌, if◌then◌else◌,
  get_or,
}
use team_10_queue_serivce.Models.Status.{is_active, is_offer_pending}
use team_10_queue_serivce.Models.{QueueMembership, Right, ProductStock}
use team_10_queue_serivce.Redis.State.{Cache, Stock}
use team_10_queue_serivce.Postgres.State.{Durable}
use team_10_queue_serivce.Postgres.Rows.{find_stock}
use team_10_queue_serivce.World.{Store}

-- What a right holds of product `p`.
abbrev pub right_units : ℕ → Right → ℕ
right_units p r = if (r.product_id == p) && is_active r.status then r.quantity else 0

abbrev pub rights_units : ℕ → List Right → ℕ
rights_units p [] = 0
rights_units p (r ∷ rs) = right_units p r + rights_units p rs

-- What a pending offer holds of product `p`.
abbrev pub offer_units : ℕ → QueueMembership → ℕ
offer_units p m =
    if (m.product_id == p) && is_offer_pending m.status then get_or 0 m.available_quantity else 0

abbrev pub offers_units : ℕ → List QueueMembership → ℕ
offers_units p [] = 0
offers_units p (m ∷ ms) = offer_units p m + offers_units p ms

abbrev pub held : ℕ → Durable → ℕ
held p d = rights_units p d.rights + offers_units p d.memberships

-- What counts for a product as long as Redis has no stock of it, `most` units in the pool, and as long
-- as PostgreSQL has no row of it, `least` physical units.
pub record Unsaved : Type 0 where
  pub most : ℕ
  pub least : ℕ

-- Before the first entry a product's stock is what AvitoBackend says.
abbrev pub exactly : ℕ → Unsaved
exactly n = record { most = n; least = n }

-- An answer of AvitoBackend that an entry may write.
abbrev pub IsWithin : Unsaved → ℕ → Type 0
IsWithin total n = (n ≤ total.most) × (total.least ≤ n)

abbrev pub pool_of : Unsaved → Option Stock → ℕ
pool_of total none = total.most
pool_of total (some s) = s.available_units

abbrev pub count_of : Unsaved → Option ProductStock → ℕ
count_of total none = total.least
count_of total (some s) = s.product_count

abbrev pub pool : Unsaved → ℕ → Cache → ℕ
pool total p c = pool_of total (c.stocks p)

abbrev pub physical : Unsaved → ℕ → Durable → ℕ
physical total p d = count_of total (find_stock p d.stocks)

-- `n` units of product `q`, seen from product `p`.
abbrev pub units_at : ℕ → ℕ → ℕ → ℕ
units_at q n p = if q == p then n else 0

-- A cached membership stands under its own product and user.
abbrev pub IsKeyed : Cache → Type 0
IsKeyed c =
    (p u : ℕ) (m : QueueMembership) → c.members p u ≡ some m → (m.product_id ≡ p) × (m.user_id ≡ u)

-- With `n` units under way, no unit of product `p` is promised twice: the pool, the rights, the
-- offers and those units are no more than the physical stock.
pub record NoOversell (total : Unsaved) (p n : ℕ) (st : Store) : Type 0 where
  pub keyed : IsKeyed st.cache
  pub bounded : pool total p st.cache + held p st.durable + n ≤ physical total p st.durable
