-- ===== src/Views.antt =====
-- The place in the queue that CalculateETA in backend/internal/service/membership.go answers.
use team_10_queue_serivce.Base.{ℕ, ◌+◌, [], ◌∷◌, Option, if◌then◌else◌}
use team_10_queue_serivce.Redis.SortedSet.{SortedSet, id_key, precedes}
use team_10_queue_serivce.Redis.Repo.{metrics_at}
use team_10_queue_serivce.World.{World, M, lift, pure, ◌>>=◌}
use team_10_queue_serivce.Service.Config.{QueueService}
use team_10_queue_serivce.Service.Views.{eta_at}

-- How many stand before a user with score `s`.
abbrev pub ahead : ℕ → ℕ → SortedSet ℕ → ℕ
ahead s u [] = 0
ahead s u ((t, j) ∷ z) = (if precedes {K = ℕ} t j s u then 1 else 0) + ahead s u z

-- The estimate behind the reply of Redis.
abbrev answered : QueueService → Option ℕ → ℕ → M (ℕ × ℕ)
answered s rank free = lift (metrics_at rank free) >>= λ x. pure (eta_at s (x.0 + 1) x.1)
