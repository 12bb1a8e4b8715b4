-- ===== src/Transport/Streams.antt =====
-- sse.go, ws.go and user_queues.go of transport/api: the streams, as what each writes on its connection.
use team_10_queue_serivce.Base.{
  ℕ, Bool, true, false, not, ◌&&◌, ◌||◌, List, [], ◌∷◌, ◌++◌, Option, none, some, ◌==◌,
  if◌then◌else◌,
}
use team_10_queue_serivce.Models.Status.{MembershipStatus, is_terminal, ghost}
use team_10_queue_serivce.Models.{Error, UserQueue, membership_not_found, token_not_found, joined}
use team_10_queue_serivce.Models.Result.{Result, ok, err}
use team_10_queue_serivce.World.{M, pure, attempt, ◌>>=◌}
use team_10_queue_serivce.Postgres.Reports.{same_status}
use team_10_queue_serivce.Service.Config.{QueueService}
use team_10_queue_serivce.Service.Presence.{refresh_user_presence}
use team_10_queue_serivce.Service.Views.{get_user_queues}
use team_10_queue_serivce.Transport.Response.{
  MembershipResponse, response_of, new_user_queue_response, new_user_queues_response,
}

-- What the select of a loop meets: the client goes, the timer of keep-alives, whose write may fail, or
-- the timer of the poll.
pub data Wake : Type 0 where
  gone : Wake
  keep_alive : Bool → Wake
  tick : Wake

-- What the loop writes. writeSSEEvent drops the error of a write, so that an update may not reach the
-- client, and says whether it does.
pub data Frame (A : Type 0) : Type 0 where
  update : A → Bool → Frame A
  failure comment : Frame A

-- A round of a loop: what `next` returns, whether the write of an update would succeed, and what comes
-- after it.
pub record Round (A : Type 0) : Type 0 where
  pub read : Result A
  pub written : Bool
  pub wake : Wake

module _ {A : Type 0} (same : A → A → Bool) where
  -- string(encoded) != sent; nothing has been sent at first.
  abbrev pub is_news : Option A → A → Bool
  is_news none a = true
  is_news (some b) a = not (same b a)

  abbrev pub news : Option A → A → Bool → List (Frame A)
  news sent a written = if is_news sent a then update a written ∷ [] else []

  abbrev pub kept : Option A → A → Option A
  kept sent a = if is_news sent a then some a else sent

  abbrev pub after_wake : Wake → List (Frame A) → List (Frame A)
  after_wake gone rest = []
  after_wake (keep_alive true) rest = comment ∷ rest
  after_wake (keep_alive false) rest = []
  after_wake tick rest = rest

  abbrev pub answer_round :
      Result A → Bool → Wake → Option A → (Option A → List (Frame A)) → List (Frame A)
  answer_round (err e) written wake sent rest = failure ∷ []
  answer_round (ok a) written wake sent rest =
      news sent a written ++ after_wake wake (rest (kept sent a))

  -- streamJSON
  unfoldable pub stream_json : List (Round A) → Option A → List (Frame A)
  stream_json [] sent = []
  stream_json (r ∷ rs) sent =
      answer_round r.read r.written r.wake sent (λ sent'. stream_json rs sent')

-- sameMembership
abbrev pub same_option : Option ℕ → Option ℕ → Bool
same_option none none = true
same_option (some a) (some b) = a == b
same_option _ _ = false

unfoldable pub same_membership : MembershipResponse → MembershipResponse → Bool
same_membership a b =
    same_status a.status b.status
    && (a.token == b.token)
    && (a.quantity == b.quantity)
    && (a.available_quantity == b.available_quantity)
    && (a.position == b.position)
    && (a.eta_seconds == b.eta_seconds)
    && same_option a.expires_at b.expires_at

pub data Message : Type 0 where
  membership_message : MembershipResponse → Message
  close_normal close_policy close_internal : Message

-- What the loop of the realtime stream meets: an event, or the end of the subscription.
pub data Signal : Type 0 where
  event_signal subscription_closed client_gone : Signal

-- What GetUserQueue returns, whether the write succeeds, and what comes after it.
pub record Reading : Type 0 where
  pub queue : Result UserQueue
  pub written : Bool
  pub signal : Signal

-- errors.Is for the two errors of a membership that is not there.
abbrev pub is_absent : Error → Bool
is_absent membership_not_found = true
is_absent token_not_found = true
is_absent (joined a b) = is_absent a || is_absent b
is_absent _ = false

abbrev pub after_signal : Signal → List Message → List Message
after_signal event_signal rest = rest
after_signal subscription_closed rest = close_internal ∷ []
after_signal client_gone rest = []

-- The end of sendCurrent, and the loop behind it.
abbrev pub after_write : MembershipStatus → Signal → List Message → List Message
after_write status signal rest =
    if is_terminal status then close_normal ∷ [] else after_signal signal rest

abbrev pub send_current :
    Reading
    → MembershipResponse
    → MembershipResponse
    → (MembershipResponse → List Message)
    → List Message
send_current r sent resp rest =
    if same_membership sent resp
    then after_write resp.status r.signal (rest sent)
    else if r.written
    then membership_message resp ∷ after_write resp.status r.signal (rest resp)
    else []

abbrev pub on_reading :
    Result UserQueue
    → Reading
    → MembershipResponse
    → (MembershipResponse → List Message)
    → List Message
on_reading (err e) r sent rest = if is_absent e then close_policy ∷ [] else close_internal ∷ []
on_reading (ok q) r sent rest = send_current r sent (new_user_queue_response q).1 rest

-- QueueHandler.stream behind a subscription that succeeded.
unfoldable pub stream : List Reading → MembershipResponse → List Message
unfolding same_membership is_terminal new_user_queue_response
stream [] sent = []
stream (r ∷ rs) sent = on_reading r.queue r sent (λ sent'. stream rs sent')

-- The zero value of membershipResponse.
abbrev pub nothing_sent : MembershipResponse
nothing_sent = response_of ghost

-- bytes.Equal of the encoded lists.
abbrev pub same_queues : List (ℕ × MembershipResponse) → List (ℕ × MembershipResponse) → Bool
same_queues [] [] = true
same_queues ((p, a) ∷ xs) ((q, b) ∷ ys) = (p == q) && same_membership a b && same_queues xs ys
same_queues _ _ = false

-- A heartbeat of the session: whether the client answers the ping, and whether the write succeeds.
pub record Beat : Type 0 where
  pub ponged : Bool
  pub written : Bool

-- What the session has written: the list, if any, and the close frame of a failed read.
pub data SessionFrame : Type 0 where
  queues_frame : List (ℕ × MembershipResponse) → SessionFrame
  closed_internal : SessionFrame

abbrev pub Sent : Type 0
Sent = Option (List (ℕ × MembershipResponse))

abbrev pub send_queues :
    Bool
    → Sent
    → List (ℕ × MembershipResponse)
    → (Sent → M (List SessionFrame))
    → M (List SessionFrame)
send_queues written sent queues rest =
    if not (is_news same_queues sent queues)
    then rest sent
    else if written
    then (rest (some queues) >>= λ frames. pure (queues_frame queues ∷ frames))
    else pure []

-- sendCurrent, and what follows it.
abbrev pub on_queues :
    Bool → Sent → (Sent → M (List SessionFrame)) → Result (List UserQueue) → M (List SessionFrame)
on_queues written sent rest (err e) = pure (closed_internal ∷ [])
on_queues written sent rest (ok qs) = send_queues written sent (new_user_queues_response qs) rest

abbrev pub on_refreshed :
    QueueService
    → ℕ
    → Bool
    → Sent
    → (Sent → M (List SessionFrame))
    → Result (Unit {0})
    → M (List SessionFrame)
on_refreshed s u written sent rest (err e) = pure []
on_refreshed s u written sent rest (ok tt) =
    attempt (get_user_queues s u) >>= on_queues written sent rest

-- refreshPresence and sendCurrent; a failure of either ends the session.
unfoldable pub refresh_and_send :
    QueueService → ℕ → Bool → Sent → (Sent → M (List SessionFrame)) → M (List SessionFrame)
unfolding same_membership new_user_queues_response
refresh_and_send s u written sent rest =
    attempt (refresh_user_presence s u) >>= on_refreshed s u written sent rest

-- The loop: one round for each heartbeat until the client goes.
unfoldable pub session_loop : QueueService → ℕ → List Beat → Sent → M (List SessionFrame)
unfolding refresh_and_send
session_loop s u [] sent = pure []
session_loop s u (b ∷ bs) sent =
    let rest = λ (sent' : Sent). session_loop s u bs sent' in
    if b.ponged then refresh_and_send s u b.written sent rest else pure []

-- streamUserQueues; `written` is about the first write.
unfoldable pub stream_user_queues : QueueService → ℕ → Bool → List Beat → M (List SessionFrame)
unfolding session_loop refresh_and_send
stream_user_queues s u written beats =
    refresh_and_send s u written none (λ sent. session_loop s u beats sent)
