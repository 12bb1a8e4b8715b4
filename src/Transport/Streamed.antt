-- ===== src/Transport/Streamed.antt =====
-- What the clients of the streams see: sse.go, ws.go and user_queues.go of transport/api.
use team_10_queue_serivce.Base.{
  ◌≡◌, ◌⊎◌, ◌∙◌, refl, ap, subst, sym, Bool, true, false, not, ◌&&◌, List, [], ◌∷◌, Option, none,
  some, inl, inr, Bool-cases, if◌then◌else◌, not-false-true,
}
use team_10_queue_serivce.Models.Status.{is_terminal}
use team_10_queue_serivce.Models.{UserQueue}
use team_10_queue_serivce.Models.Result.{Result, ok, err}
use team_10_queue_serivce.Transport.Response.{MembershipResponse, new_user_queue_response}
use team_10_queue_serivce.Transport.Streams.{
  Wake, gone, keep_alive, tick, Frame, update, failure, comment, Round, is_news, after_wake,
  answer_round, stream_json, same_membership, Message, membership_message, close_normal, Signal,
  event_signal, subscription_closed, client_gone, Reading, is_absent, after_signal, send_current,
  on_reading, stream,
}

module _ {A : Type 0} (same : A → A → Bool) where
  -- What the client shows: the last update that reached it, and what it showed before.
  abbrev pub shown : Option A → List (Frame A) → Option A
  shown sent [] = sent
  shown sent (update a true ∷ fs) = shown (some a) fs
  shown sent (_ ∷ fs) = shown sent fs

  -- What the loop takes for sent: the last update, whether or not it reached the client.
  abbrev pub attempted : Option A → List (Frame A) → Option A
  attempted sent [] = sent
  attempted sent (update a w ∷ fs) = attempted (some a) fs
  attempted sent (_ ∷ fs) = attempted sent fs

  -- The write of the last update failed; `missing` says so of what came before.
  abbrev pub is_missing : Bool → List (Frame A) → Bool
  is_missing missing [] = missing
  is_missing missing (update a w ∷ fs) = is_missing (not w) fs
  is_missing missing (_ ∷ fs) = is_missing missing fs

  -- What a client would show that got every payload, whether or not it is news.
  abbrev pub latest_after : Result A → Wake → Option A → (Option A → Option A) → Option A
  latest_after (err e) wake sent rest = sent
  latest_after (ok a) gone sent rest = some a
  latest_after (ok a) (keep_alive true) sent rest = rest (some a)
  latest_after (ok a) (keep_alive false) sent rest = some a
  latest_after (ok a) tick sent rest = rest (some a)

  abbrev pub latest : Option A → List (Round A) → Option A
  latest sent [] = sent
  latest sent (r ∷ rs) = latest_after r.read r.wake sent (λ sent'. latest sent' rs)

  -- Every update is news.
  abbrev pub all_news : Option A → List (Frame A) → Bool
  all_news sent [] = true
  all_news sent (update a w ∷ fs) = is_news same sent a && all_news (some a) fs
  all_news sent (_ ∷ fs) = all_news sent fs

  module _ (sound : (a b : A) → same a b ≡ true → a ≡ b) where
    not_news : (sent : Option A) (a : A) → is_news same sent a ≡ false → sent ≡ some a
    not_news none a h = cc
    not_news (some b) a h = ap some (sound b a (not-false-true (same b a) h))

    -- What holds of the frames of the rounds, after those that showed `sent`.
    abbrev Follows : List (Round A) → Option A → List (Frame A) → Type 0
    Follows rs sent fs = (attempted sent fs ≡ latest sent rs) × (all_news sent fs ≡ true)

    wake_Follows :
        (sent : Option A) (a : A) (wake : Wake) (rs : List (Round A)) (fs : List (Frame A))
        → Follows rs (some a) fs
        → (attempted (some a) (after_wake same wake fs)
            ≡ latest_after (ok a) wake sent (λ sent'. latest sent' rs))
          × (all_news (some a) (after_wake same wake fs) ≡ true)
    wake_Follows sent a gone rs fs h = (refl, refl)
    wake_Follows sent a (keep_alive true) rs fs h = h
    wake_Follows sent a (keep_alive false) rs fs h = (refl, refl)
    wake_Follows sent a tick rs fs h = h

    round_Follows :
        (read : Result A) (written : Bool) (wake : Wake) (rs : List (Round A)) (sent : Option A)
        → ((sent' : Option A) → Follows rs sent' (stream_json same rs sent'))
        → Follows
            (record { read = read; written = written; wake = wake } ∷ rs)
            sent
            (answer_round same read written wake sent (λ sent'. stream_json same rs sent'))
    round_Follows (err e) written wake rs sent ih = (refl, refl)
    round_Follows (ok a) written wake rs sent ih = elim (Bool-cases (is_news same sent a)) [
      | inl e ↦
          let h = wake_Follows sent a wake rs (stream_json same rs (some a)) (ih (some a)) in
          rw (e, e) h
      | inr e ↦ rw e (
          subst
            (λ before.
              (attempted before (after_wake same wake (stream_json same rs before))
                ≡ latest_after (ok a) wake sent (λ sent'. latest sent' rs))
              × (all_news before (after_wake same wake (stream_json same rs before)) ≡ true))
            (sym (not_news sent a e))
            (wake_Follows sent a wake rs (stream_json same rs (some a)) (ih (some a))))
    ]

    frames_Follows :
        (rs : List (Round A)) (sent : Option A) → Follows rs sent (stream_json same rs sent)
    unfolding stream_json
    frames_Follows [] sent = (refl, refl)
    frames_Follows (r ∷ rs) sent =
        round_Follows r.read r.written r.wake rs sent (λ sent'. frames_Follows rs sent')

    -- The client shows what was attempted, unless the last update did not reach it.
    reached :
        (x y : Option A) (missing : Bool) (fs : List (Frame A))
        → (x ≡ y) ⊎ (missing ≡ true)
        → (shown x fs ≡ attempted y fs) ⊎ (is_missing missing fs ≡ true)
    reached x y missing [] h = h
    reached x y missing (update a true ∷ fs) h = reached (some a) (some a) false fs (inl refl)
    reached x y missing (update a false ∷ fs) h = reached x (some a) true fs (inr refl)
    reached x y missing (failure ∷ fs) h = reached x y missing fs h
    reached x y missing (comment ∷ fs) h = reached x y missing fs h

    -- A client of the event stream shows the payload of the last poll that succeeded before the stream
    -- ended, as if every poll had been sent, unless the write of the last update failed, whichever
    -- writes fail before it; what the loop takes for sent is that payload in any case, and no update
    -- repeats what it takes for sent, if payloads with the same text are the same.
    pub stream_json-latest :
        (rs : List (Round A)) (sent : Option A)
        → let fs = stream_json same rs sent in
          ((shown sent fs ≡ latest sent rs) ⊎ (is_missing false fs ≡ true))
          × (attempted sent fs ≡ latest sent rs)
          × (all_news sent fs ≡ true)
    stream_json-latest rs sent =
        let (same_latest, news) = frames_Follows rs sent in
        (
          elim (reached sent sent false (stream_json same rs sent) (inl refl)) [
            | inl e ↦ inl (e ∙ same_latest)
            | inr e ↦ inr e
          ],
          same_latest,
          news,
        )

-- A message with a terminal status is the last but for the close frame, and it is news to the client.
abbrev pub ends_normally : List Message → Bool
ends_normally (close_normal ∷ []) = true
ends_normally _ = false

abbrev pub is_orderly : MembershipResponse → List Message → Bool
is_orderly sent [] = true
is_orderly sent (membership_message m ∷ fs) =
    not (same_membership sent m)
    && (if is_terminal m.status then ends_normally fs else is_orderly m fs)
is_orderly sent (close ∷ []) = true
is_orderly sent (close ∷ f ∷ fs) = false

after_signal-is_orderly :
    (signal : Signal) (sent : MembershipResponse) (rest : List Message)
    → is_orderly sent rest ≡ true
    → is_orderly sent (after_signal signal rest) ≡ true
after_signal-is_orderly event_signal sent rest h = h
after_signal-is_orderly subscription_closed sent rest h = refl
after_signal-is_orderly client_gone sent rest h = refl

send_current-is_orderly :
    (r : Reading) (sent resp : MembershipResponse) (rest : MembershipResponse → List Message)
    → ((sent' : MembershipResponse) → is_orderly sent' (rest sent') ≡ true)
    → is_orderly sent (send_current r sent resp rest) ≡ true
send_current-is_orderly r sent resp rest h = elim (Bool-cases (same_membership sent resp)) [
  | inl e ↦ elim (Bool-cases (is_terminal resp.status)) [
    | inl f ↦ rw (e, f) refl
    | inr f ↦ rw (e, f) (after_signal-is_orderly r.signal sent (rest sent) (h sent))
  ]
  | inr e ↦ elim (Bool-cases r.written) [
    | inr g ↦ rw (e, g) refl
    | inl g ↦ elim (Bool-cases (is_terminal resp.status)) [
      | inl f ↦ rw (e, g, e, f) refl
      | inr f ↦ rw (e, g, e, f) (after_signal-is_orderly r.signal resp (rest resp) (h resp))
    ]
  ]
]

on_reading-is_orderly :
    (queue : Result UserQueue) (r : Reading) (sent : MembershipResponse)
    (rest : MembershipResponse → List Message)
    → ((sent' : MembershipResponse) → is_orderly sent' (rest sent') ≡ true)
    → is_orderly sent (on_reading queue r sent rest) ≡ true
unfolding new_user_queue_response
on_reading-is_orderly (err e) r sent rest h = elim (Bool-cases (is_absent e)) [
  | inl f ↦ rw f refl
  | inr f ↦ rw f refl
]
on_reading-is_orderly (ok q) r sent rest h =
    send_current-is_orderly r sent (new_user_queue_response q).1 rest h

-- On the realtime connection of a membership every message differs from the one before, a message with a
-- terminal status is followed by the normal close alone, and nothing follows a close, whatever is read,
-- whichever write fails and whenever the subscription or the client goes.
pub stream-is_orderly :
    (rs : List Reading) (sent : MembershipResponse) → is_orderly sent (stream rs sent) ≡ true
unfolding stream
stream-is_orderly [] sent = refl
stream-is_orderly (r ∷ rs) sent =
    on_reading-is_orderly r.queue r sent (λ sent'. stream rs sent')
      (λ sent'. stream-is_orderly rs sent')
