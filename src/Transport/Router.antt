-- ===== src/Transport/Router.antt =====
-- transport/mw and router.go: who may ask for what. A header or a parameter of the query that is absent
-- is empty.
use team_10_queue_serivce.Base.{ℕ, Bool, true, false, not, ◌&&◌, List, Option, ◌==◌, if◌then◌else◌}
use team_10_queue_serivce.Base.Int.{ℤ}
use team_10_queue_serivce.Models.{empty_id}
use team_10_queue_serivce.World.{M, pure}
use team_10_queue_serivce.Service.Config.{QueueService}
use team_10_queue_serivce.Transport.Response.{no_body}
use team_10_queue_serivce.Transport.Handlers.{
  Reply, join, status, accept, leave, check_right, check_right_for_checkout, right_events,
  user_queues, queue_stats, product_metrics,
}

-- InternalAuth, with the service's token and the request's header.
abbrev pub internal_auth : ℕ → ℕ → M Reply → M Reply
internal_auth token header next =
    if not (token == empty_id) && not (header == token) then pure (401, no_body) else next

-- UserMiddleware, with the header and the parameter of the query that name the caller.
abbrev pub caller_of : ℕ → ℕ → ℕ
caller_of header query = if header == empty_id then query else header

abbrev pub user_middleware : ℕ → ℕ → (ℕ → M Reply) → M Reply
user_middleware header query next =
    if caller_of header query == empty_id
    then pure (401, no_body)
    else next (caller_of header query)

pub data Method : Type 0 where
  get head post patch delete other_method : Method

-- The paths of the router's patterns, any other path of queues, and any other path.
pub data Route : Type 0 where
  health my_queues : Route
  members members_me stats metrics : ℕ → Route
  right validation events : ℕ → Route
  other_queue_path other_path : Route

-- What the handlers' decoders make of the body; `none` where they fail.
pub record Payload : Type 0 where
  pub quantity : Option ℤ
  pub product : Option ℕ
  pub event : Option (Bool × ℕ)

pub record Request : Type 0 where
  pub method : Method
  pub path : Route
  pub user_header : ℕ
  pub user_query : ℕ
  pub internal_header : ℕ
  pub payload : Payload

-- ServeMux's own replies.
abbrev pub not_found : M Reply
not_found = pure (404, no_body)

abbrev pub wrong_method : M Reply
wrong_method = pure (405, no_body)

-- The inner mux, behind UserMiddleware.
abbrev pub route_queue : QueueService → Method → Route → Payload → ℕ → M Reply
route_queue s post (members p) body u = join s p u body.quantity
route_queue s get (members_me p) body u = status s p u
route_queue s head (members_me p) body u = status s p u
route_queue s patch (members_me p) body u = accept s p u body.quantity
route_queue s delete (members_me p) body u = leave s p u
route_queue s method (members p) body u = wrong_method
route_queue s method (members_me p) body u = wrong_method
route_queue s method path body u = not_found

abbrev pub by_user : Request → (ℕ → M Reply) → M Reply
by_user r next = user_middleware r.user_header r.user_query next

-- A pattern of GET matches HEAD too.
abbrev pub is_get : Method → Bool
is_get get = true
is_get head = true
is_get _ = false

abbrev pub is_post : Method → Bool
is_post post = true
is_post _ = false

-- A pattern with a method.
abbrev pub only : Bool → M Reply → M Reply
only allowed next = if allowed then next else wrong_method

-- The outer mux: the pattern of a queue's counts comes before the prefix of all paths of queues.
abbrev pub by_path : QueueService → ℕ → (List (ℕ × ℕ) → Option ℕ) → Request → Route → M Reply
by_path s token average r health = only (is_get r.method) (pure (200, no_body))
by_path s token average r (stats p) =
    if is_get r.method
    then queue_stats p
    else by_user r (route_queue s r.method (stats p) r.payload)
by_path s token average r (metrics p) = only (is_get r.method) (product_metrics average p)
by_path s token average r my_queues = only (is_get r.method) (by_user r (user_queues s))
by_path s token average r (right t) = only (is_get r.method) (by_user r (check_right t))
by_path s token average r (validation t) =
    only (is_post r.method)
      (internal_auth token r.internal_header (check_right_for_checkout t r.payload.product))
by_path s token average r (events t) =
    only (is_post r.method)
      (internal_auth token r.internal_header (right_events s t r.payload.event))
by_path s token average r (members p) = by_user r (route_queue s r.method (members p) r.payload)
by_path s token average r (members_me p) =
    by_user r (route_queue s r.method (members_me p) r.payload)
by_path s token average r other_queue_path =
    by_user r (route_queue s r.method other_queue_path r.payload)
by_path s token average r other_path = not_found

-- NewRouter's handler; `token` is the internal one, and `average` PostgreSQL's.
unfoldable pub route : QueueService → ℕ → (List (ℕ × ℕ) → Option ℕ) → Request → M Reply
route s token average r = by_path s token average r r.path
