-- ===== src/Lasting.antt =====
-- What lasts of the rights in PostgreSQL, whatever the service does: a condition on the rows of `rights`
-- that durable.go keeps statement by statement is kept by every operation, with whichever calls fail.
pub mod Tables
pub mod Calls
pub mod Advance
pub mod Join
pub mod Leave
pub mod Expiration
pub mod Workers
pub mod Recovery
pub mod Traffic
pub mod Ended
use team_10_queue_serivce.Base.{ℕ, ◌≡◌, List, [], ◌∷◌, ◌++◌, none}
use team_10_queue_serivce.Models.{Right}
use team_10_queue_serivce.World.{Store, M}
use team_10_queue_serivce.World.Triple.{Leaves}
use team_10_queue_serivce.Postgres.Rows.{find_right, set_active}
use team_10_queue_serivce.Service.Config.{QueueService}

-- A new token may be inserted, and an active row may change, its token excepted.
pub record IsLasting (K : List Right → Type 0) : Type 0 where
  pub inserted :
      (r : Right) (rs : List Right) → find_right r.token rs ≡ none → K rs → K (rs ++ r ∷ [])
  pub changed :
      (f : Right → Right)
      → ((r : Right) → (f r).token ≡ r.token)
      → (t : ℕ) (rs : List Right) → K rs
      → K (set_active f t rs)

abbrev pub Kept : (List Right → Type 0) → Store → Type 0
Kept K st = K st.durable.rights

abbrev pub Keeps : (List Right → Type 0) → {A : Type 0} → M A → Type 0
Keeps K m = Leaves (Kept K) m (Kept K)

-- What other requests do meanwhile keeps the condition.
abbrev pub OthersKeep : (List Right → Type 0) → QueueService → Type 0
OthersKeep K s = (n : ℕ) (st : Store) → Kept K st → Kept K (s.others n st)
