-- ===== src/Service/Sync.antt =====
-- syncCacheState: what Redis holds of a membership after each transition.
use team_10_queue_serivce.Base.{◌+◌, ◌||◌, Option, none, some, is_some, get_or}
use team_10_queue_serivce.Models.Status.{is_queued}
use team_10_queue_serivce.Models.{QueueMembership, Right}
use team_10_queue_serivce.World.{M, pure, attempt, time_now, when, ◌>>=◌, ◌>>◌}
use team_10_queue_serivce.Redis.Repo.{set_right, add_to_expiry_timer, set_membership, publish_event}
use team_10_queue_serivce.Service.Config.{QueueService}

abbrev pub cache_right : Option Right → M (Unit {0})
cache_right none = pure tt
cache_right (some r) = set_right r

-- A queued membership is timed by the user's presence, any other by its own deadline.
abbrev pub schedule : QueueService → QueueMembership → M (Unit {0})
schedule s m = do
  now ← time_now
  add_to_expiry_timer m.product_id m.user_id (get_or (now + s.presence_timeout) m.expires_at)

-- Publishing is best effort.
unfoldable pub sync_cache_state : QueueService → QueueMembership → Option Right → M (Unit {0})
sync_cache_state s m right = do
  cache_right right
  when (is_queued m.status || is_some m.expires_at) (schedule s m)
  set_membership m
  published ← attempt (publish_event m.product_id m.user_id)
  pure tt
