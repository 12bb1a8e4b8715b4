-- ===== src/Transport/Guarded.antt =====
-- What an unauthorized request can reach through the router: transport/mw and router.go.
use team_10_queue_serivce.Base.{ℕ, ◌≡◌, ◌≢◌, refl, Bool, not, ◌&&◌, List, Option, arith, ◌==◌}
use team_10_queue_serivce.Models.{empty_id}
use team_10_queue_serivce.World.{Store, World, M, pure}
use team_10_queue_serivce.World.Triple.{
  Leaves, Triple-pure, Triple-raise, Triple-bind, Triple-if, Triple-attempt, Leaves-after,
  Leaves-reads,
}
use team_10_queue_serivce.Redis.Repo.{get_stock}
use team_10_queue_serivce.Service.Config.{QueueService}
use team_10_queue_serivce.Service.Views.{get_queue_stats, get_product_metrics}
use team_10_queue_serivce.Transport.Handlers.{
  Reply, respond, answer, queue_stats, product_metrics, user_queues, check_right, right_events,
  check_right_for_checkout,
}
use team_10_queue_serivce.Transport.Router.{
  internal_auth, caller_of, Route, health, my_queues, members, members_me, stats, metrics, right,
  validation, events, other_queue_path, other_path, Request, only, is_get, is_post, by_user,
  route_queue, by_path, route,
}

module _ (start : Store) where
  -- The stores are still those of the start.
  abbrev Same : Store → Type 0
  Same st = st ≡ start

  Same-answer :
      {A : Type 0} (f : A → Reply) (m : M A) → Leaves Same m Same → Leaves Same (answer f m) Same
  Same-answer f m h =
      Triple-attempt m (λ r. pure (respond f r)) h (λ a. Triple-pure _ (λ st k. k))
        (λ e. Triple-pure _ (λ st k. k))

  Same-queue_stats : (p : ℕ) → Leaves Same (queue_stats p) Same
  unfolding queue_stats get_queue_stats get_stock
  Same-queue_stats p = Same-answer _ _ (
      Triple-bind _ _ (Leaves-reads _)
        λ stock. Triple-bind _ _ (Leaves-reads _) λ counts. Triple-pure _ (λ st k. k))

  Same-product_metrics :
      (average : List (ℕ × ℕ) → Option ℕ) (p : ℕ) → Leaves Same (product_metrics average p) Same
  unfolding product_metrics get_product_metrics
  Same-product_metrics average p =
      Same-answer _ _
        (Triple-if (p == empty_id) _ _ (λ _. Triple-raise _ (λ st k. k)) (λ _. Leaves-reads _))

  Same-only :
      (allowed : Bool) (m : M Reply) → Leaves Same m Same → Leaves Same (only allowed m) Same
  Same-only allowed m h = Triple-if allowed _ _ (λ _. h) (λ _. Triple-pure _ (λ st k. k))

  module _ (s : QueueService) (token : ℕ) (average : List (ℕ × ℕ) → Option ℕ) (r : Request)
      (nobody : caller_of r.user_header r.user_query ≡ empty_id) (secret : token ≢ empty_id)
      (unknown : r.internal_header ≢ token) where
    Same-by_user : (next : ℕ → M Reply) → Leaves Same (by_user r next) Same
    Same-by_user next =
        Triple-if (caller_of r.user_header r.user_query == empty_id) _ _
          (λ _. Triple-pure _ (λ st k. k)) (λ e. absurd (ground (arith, nobody)))

    Same-internal : (next : M Reply) → Leaves Same (internal_auth token r.internal_header next) Same
    Same-internal next =
        Triple-if (not (token == empty_id) && not (r.internal_header == token)) _ _
          (λ _. Triple-pure _ (λ st k. k)) (λ e. absurd (ground (arith, secret, unknown)))

    Same-by_path : (path : Route) → Leaves Same (by_path s token average r path) Same
    Same-by_path health = Same-only (is_get r.method) _ (Triple-pure _ (λ st k. k))
    Same-by_path (stats p) =
        Triple-if (is_get r.method) _ _ (λ _. Same-queue_stats p)
          (λ _. Same-by_user (route_queue s r.method (stats p) r.payload))
    Same-by_path (metrics p) = Same-only (is_get r.method) _ (Same-product_metrics average p)
    Same-by_path my_queues = Same-only (is_get r.method) _ (Same-by_user (user_queues s))
    Same-by_path (right t) = Same-only (is_get r.method) _ (Same-by_user (check_right t))
    Same-by_path (validation t) =
        Same-only (is_post r.method) _
          (Same-internal (check_right_for_checkout t r.payload.product))
    Same-by_path (events t) =
        Same-only (is_post r.method) _ (Same-internal (right_events s t r.payload.event))
    Same-by_path (members p) = Same-by_user (route_queue s r.method (members p) r.payload)
    Same-by_path (members_me p) = Same-by_user (route_queue s r.method (members_me p) r.payload)
    Same-by_path other_queue_path = Same-by_user (route_queue s r.method other_queue_path r.payload)
    Same-by_path other_path = Triple-pure _ (λ st k. k)

-- A request that names no user and lacks the internal token changes nothing in Redis and PostgreSQL,
-- whatever its method, its path and its body, and whichever remote calls fail, if the service has an
-- internal token.
pub route-anonymous :
    (s : QueueService) (token : ℕ) (average : List (ℕ × ℕ) → Option ℕ) (r : Request) (w : World)
    → caller_of r.user_header r.user_query ≡ empty_id
    → token ≢ empty_id
    → r.internal_header ≢ token
    → (route s token average r w).1.store ≡ w.store
unfolding route
route-anonymous s token average r w nobody secret unknown =
    Leaves-after _ (Same-by_path w.store s token average r nobody secret unknown r.path) w refl
