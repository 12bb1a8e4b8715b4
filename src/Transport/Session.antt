-- ===== src/Transport/Session.antt =====
-- What the connection of a user's whole session leaves alone: streamUserQueues of
-- transport/api/user_queues.go.
use team_10_queue_serivce.Base.{ℕ, Bool, not, List, [], ◌∷◌, some, none}
use team_10_queue_serivce.Models.Status.{is_queued}
use team_10_queue_serivce.Models.{QueueMembership}
use team_10_queue_serivce.Models.Result.{Result, ok, err}
use team_10_queue_serivce.World.{Store, World, M, pure}
use team_10_queue_serivce.World.Triple.{
  Leaves, Triple-pure, Triple-bind, Triple-if, Triple-attempt, Leaves-after, Leaves-reads,
}
use team_10_queue_serivce.Redis.Repo.{get_queue_metrics}
use team_10_queue_serivce.Service.Config.{QueueService}
use team_10_queue_serivce.Service.Presence.{refresh_user_presence}
use team_10_queue_serivce.Service.Views.{
  calculate_eta, positioned, with_position, with_positions, get_user_queues,
}
use team_10_queue_serivce.Presence.{SameHoldings, SameHoldings-same, Leaves-refresh}
use team_10_queue_serivce.Transport.Response.{MembershipResponse, new_user_queues_response}
use team_10_queue_serivce.Transport.Streams.{
  is_news, same_queues, Beat, SessionFrame, Sent, send_queues, on_queues, on_refreshed,
  refresh_and_send, session_loop, stream_user_queues,
}

module _ (s : QueueService) (u : ℕ) (old : Store) where
  abbrev Same : Store → Type 0
  Same st = SameHoldings u old st

  Leaves-eta : (p v : ℕ) → Leaves Same (calculate_eta s p v) Same
  unfolding calculate_eta get_queue_metrics
  Leaves-eta p v = Triple-bind _ _ (Leaves-reads _) (λ (rank, available). Triple-pure _ (λ st h. h))

  Leaves-position : (m : QueueMembership) → Leaves Same (with_position s m) Same
  unfolding with_position
  Leaves-position m =
      Triple-if (not (is_queued m.status)) _ _ (λ _. Triple-pure _ (λ st h. h))
        λ _.
          Triple-attempt (calculate_eta s m.product_id m.user_id) (λ r. pure (positioned m r))
            (Leaves-eta m.product_id m.user_id) (λ a. Triple-pure _ (λ st h. h))
            (λ e. Triple-pure _ (λ st h. h))

  Leaves-positions : (ms : List QueueMembership) → Leaves Same (with_positions s ms) Same
  unfolding with_positions
  Leaves-positions [] = Triple-pure _ (λ st h. h)
  Leaves-positions (m ∷ ms) =
      Triple-bind _ _ (Leaves-position m)
        λ q. Triple-bind _ _ (Leaves-positions ms) (λ qs. Triple-pure _ (λ st h. h))

  Leaves-queues : Leaves Same (get_user_queues s u) Same
  unfolding get_user_queues
  Leaves-queues = Triple-bind _ _ (Leaves-reads _) Leaves-positions

  -- The rest of a round, if the rounds behind it keep the store.
  module _ (written : Bool) (sent : Sent) (rest : Sent → M (List SessionFrame))
      (behind : (sent' : Sent) → Leaves Same (rest sent') Same) where
    Leaves-send :
        (queues : List (ℕ × MembershipResponse))
        → Leaves Same (send_queues written sent queues rest) Same
    Leaves-send queues =
        Triple-if (not (is_news same_queues sent queues)) _ _ (λ _. behind sent)
          λ _.
            Triple-if written _ _
              (λ _. Triple-bind _ _ (behind (some queues)) (λ fs. Triple-pure _ (λ st h. h)))
              (λ _. Triple-pure _ (λ st h. h))

    Leaves-on_refreshed :
        (r : Result (Unit {0})) → Leaves Same (on_refreshed s u written sent rest r) Same
    Leaves-on_refreshed (err e) = Triple-pure _ (λ st h. h)
    Leaves-on_refreshed (ok tt) =
        Triple-attempt (get_user_queues s u) (on_queues written sent rest) Leaves-queues
          (λ qs. Leaves-send (new_user_queues_response qs)) (λ e. Triple-pure _ (λ st h. h))

    Leaves-refresh_and_send : Leaves Same (refresh_and_send s u written sent rest) Same
    unfolding refresh_and_send
    Leaves-refresh_and_send =
        Triple-attempt (refresh_user_presence s u) (on_refreshed s u written sent rest)
          (Leaves-refresh u old s) (λ x. Leaves-on_refreshed (ok x))
          (λ e. Leaves-on_refreshed (err e))

  Leaves-session_loop : (bs : List Beat) (sent : Sent) → Leaves Same (session_loop s u bs sent) Same
  unfolding session_loop
  Leaves-session_loop [] sent = Triple-pure _ (λ st h. h)
  Leaves-session_loop (b ∷ bs) sent =
      let behind = λ (sent' : Sent). Leaves-session_loop bs sent' in
      Triple-if b.ponged _ _
        (λ _. Leaves-refresh_and_send b.written sent (λ sent'. session_loop s u bs sent') behind)
        (λ _. Triple-pure _ (λ st h. h))

-- However long a user's session lasts and however it ends, its heartbeats and reads change no table, and
-- in the cache no stock, membership, right or slot, and leave every queue alone in which the cached
-- membership says that the user waits, whichever remote calls fail.
pub stream_user_queues-SameHoldings :
    (s : QueueService) (u : ℕ) (written : Bool) (beats : List Beat) (w : World)
    → SameHoldings u w.store (stream_user_queues s u written beats w).1.store
unfolding stream_user_queues
stream_user_queues-SameHoldings s u written beats w =
    Leaves-after _
      (Leaves-refresh_and_send s u w.store written none (λ sent. session_loop s u beats sent)
        (λ sent. Leaves-session_loop s u w.store beats sent))
      w (SameHoldings-same u w.store)
