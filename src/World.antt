-- ===== src/World.antt =====
-- What a call of the service acts on, and the monad of its steps. Every call of Redis, PostgreSQL or
-- Avito may fail before it has an effect: `faults` says which calls do. Each reading of the clock
-- comes some time after the last one: `elapsed` says how long. UUIDs never repeat. `sent` holds the calls
-- of DecrementStock that were made, in their order.
pub mod Triple
use team_10_queue_serivce.Base.{ℕ, suc, ◌+◌, Bool, true, false, List, [], ◌∷◌, if◌then◌else◌}
use team_10_queue_serivce.Models.{Error, unavailable}
use team_10_queue_serivce.Models.Result.{Result, ok, err, both}
use team_10_queue_serivce.Redis.State.{Cache}
use team_10_queue_serivce.Postgres.State.{Durable}

pub record Store : Type 0 where
  pub cache : Cache
  pub durable : Durable

-- A call of DecrementStock.
pub record DecrementCall : Type 0 where
  pub event_id : ℕ
  pub product_id : ℕ
  pub quantity : ℕ

pub record World : Type 0 where
  pub store : Store
  pub faults : List Bool
  pub clock : ℕ
  pub elapsed : List ℕ
  pub next_uuid : ℕ
  pub sent : List DecrementCall

abbrev pub M : Type 0 → Type 0
M A = World → Result A × World

module _ {A : Type 0} where
  abbrev pub pure : A → M A
  pure a w = (ok a, w)

  abbrev pub raise : Error → M A
  raise e w = (err e, w)

  abbrev pub lift : Result A → M A
  lift r w = (r, w)

  -- A failure becomes a value.
  abbrev pub attempt : M A → M (Result A)
  attempt m w = let (r, w') = m w in (ok r, w')

  -- `defer`: the second action runs whatever the first returns, and its own result is dropped.
  abbrev pub finally : M A → M (Unit {0}) → M A
  finally m cleanup w = let (r, w') = m w in (r, (cleanup w').1)

  abbrev perform : (ℕ → Store → Result A × Store) → M A
  perform f w = let (r, s) = f w.clock w.store in (r, record w { store = s })

  abbrev pub call_under : (ℕ → Store → Result A × Store) → List Bool → M A
  call_under f [] w = perform f w
  call_under f (false ∷ fs) w = perform f (record w { faults = fs })
  call_under f (true ∷ fs) w = (err unavailable, record w { faults = fs })

  -- A remote call, which sees the server's clock.
  unfoldable pub call : (ℕ → Store → Result A × Store) → M A
  call f w = call_under f w.faults w

  -- One Redis command or script.
  abbrev pub on_cache : (ℕ → Cache → A × Cache) → M A
  on_cache f = call λ now s. let (a, c) = f now s.cache in (ok a, record s { cache = c })

  -- A reading of Redis that may find nothing.
  abbrev pub read_cache : (Cache → Result A) → M A
  read_cache f = call λ now s. (f s.cache, s)

  -- A reading of PostgreSQL.
  abbrev pub read_durable : (Durable → Result A) → M A
  read_durable f = call λ now s. (f s.durable, s)

-- A Redis script with no reply of interest.
abbrev pub change_cache : (Cache → Cache) → M (Unit {0})
change_cache f = on_cache λ now c. (tt, f c)

abbrev pub committed : Result Durable → Store → Result (Unit {0}) × Store
committed (ok d) s = (ok tt, record s { durable = d })
committed (err e) s = (err e, s)

-- One transaction: an error leaves the tables as they were.
abbrev pub change_durable : (ℕ → Durable → Result Durable) → M (Unit {0})
change_durable f = call λ now s. committed (f now s.durable) s

infixl 5 ◌>>=◌ ◌>>◌
abbrev pub ◌>>=◌ : {A B : Type 0} → M A → (A → M B) → M B
◌>>=◌ m f w = let (r, w') = m w in elim r [ ok a ↦ f a w' | err e ↦ (err e, w') ]

abbrev pub ◌>>◌ : {B : Type 0} → M (Unit {0}) → M B → M B
m >> k = m >>= λ _. k

abbrev pub when : Bool → M (Unit {0}) → M (Unit {0})
when b m = if b then m else pure tt

-- Both actions run, and their errors are joined.
abbrev pub collect : M (Unit {0}) → M (Unit {0}) → M (Unit {0})
collect m n = do a ← attempt m; b ← attempt n; lift (both a b)

abbrev pub advance_clock : List ℕ → World → World
advance_clock [] w = w
advance_clock (n ∷ ns) w = record w { clock = w.clock + n; elapsed = ns }

-- time.Now().UTC()
unfoldable pub time_now : M ℕ
time_now w = let w' = advance_clock w.elapsed w in (ok w'.clock, w')

-- uuid.NewString()
unfoldable pub new_uuid : M ℕ
new_uuid w = (ok w.next_uuid, record w { next_uuid = suc w.next_uuid })
