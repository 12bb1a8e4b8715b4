-- ===== src/Outbox/Settled.antt =====
-- Delivered events of the outbox, and what makes an event one.
use team_10_queue_serivce.Base.{
  and_true, and_intro, or_left, or_intro, or_true, implied, not-true, ℕ, ◌+◌, ◌≡◌, refl, ap, ◌∙◌,
  Bool, true, false, not, ◌&&◌, ◌||◌, List, [], ◌∷◌, Option, none, some, ◌==◌, if◌then◌else◌,
  is_some, contains, Bool-cases, inl, inr, arith,
}
use team_10_queue_serivce.Models.{StockDecrement, unavailable}
use team_10_queue_serivce.Models.Result.{ok, err, with_rollback}
use team_10_queue_serivce.Postgres.State.{Durable}
use team_10_queue_serivce.Postgres.Outbox.{
  is_due, due_rows, due_ids, lease_row, lease_rows, claim_stock_decrements, set_open, delivered_row,
  postponed_row, mark_stock_decrement_delivered, reschedule_stock_decrement,
}
use team_10_queue_serivce.World.{Store, World, raise}
use team_10_queue_serivce.World.Triple.{
  Leaves, Triple-pure, Triple-raise, Triple-call, Triple-bind, Triple-clock, Triple-attempt,
  Leaves-collect, Leaves-after,
}
use team_10_queue_serivce.Service.Config.{QueueService}
use team_10_queue_serivce.Service.Outbox.{
  stock_outbox_backoff, truncate_error, claim_events, mark_delivered, reschedule_event,
  settle_delivery, decrement_stock, deliver_stock_decrement, deliver_events,
  process_stock_decrement_outbox,
}
use team_10_queue_serivce.Outbox.Rows.{all, ids_of, all-due_ids, rows_with-contains}

-- A row of the event is a delivered one.
abbrev pub is_settled : ℕ → StockDecrement → Bool
is_settled id e = not (e.id == id) || is_some e.delivered_at

abbrev pub IsSettled : ℕ → Durable → Type 0
IsSettled id d = all (is_settled id) d.outbox ≡ true

due_rows-settled :
    (id now : ℕ) (es : List StockDecrement)
    → all (is_settled id) es ≡ true
    → all (λ e. not (e.id == id)) (due_rows now es) ≡ true
due_rows-settled id now [] h = refl
due_rows-settled id now (e ∷ es) h =
    let parts = and_true (is_settled id e) (all (is_settled id) es) h in
    elim (Bool-cases (is_due now e)) [
      | inl d ↦ rw d (
          and_intro (not (e.id == id)) _
            (or_left _ _ parts.0 (not-true _ (and_true _ _ (and_true _ _ d).0).0))
            (due_rows-settled id now es parts.1))
      | inr d ↦ rw d (due_rows-settled id now es parts.1)
    ]

pick :
    (id : ℕ) (b : Bool) (x y : StockDecrement)
    → (b ≡ true → is_settled id x ≡ true)
    → is_settled id y ≡ true
    → is_settled id (if b then x else y) ≡ true
pick id true x y h k = h refl
pick id false x y h k = k

lease_rows-settled :
    (id now until : ℕ) (ids : List ℕ) (es : List StockDecrement)
    → all (is_settled id) es ≡ true
    → all (is_settled id) (lease_rows now until ids es) ≡ true
lease_rows-settled id now until ids [] h = refl
lease_rows-settled id now until ids (e ∷ es) h =
    let parts = and_true (is_settled id e) (all (is_settled id) es) h in
    and_intro _ _ (pick id (contains e.id ids) (lease_row now until e) e (λ b. parts.0) parts.0)
      (lease_rows-settled id now until ids es parts.1)

set_open-settled :
    (id j : ℕ) (f : StockDecrement → StockDecrement) (es : List StockDecrement)
    → ((e : StockDecrement) → (f e).id ≡ e.id)
    → all (is_settled id) es ≡ true
    → all (is_settled id) (set_open f j es) ≡ true
set_open-settled id j f [] same h = refl
set_open-settled id j f (e ∷ es) same h =
    let parts = and_true (is_settled id e) (all (is_settled id) es) h in
    and_intro (is_settled id (if (e.id == j) && not (is_some e.delivered_at) then f e else e)) _
      (pick id _ (f e) e
        (λ b. or_intro _ _ (
          ap (λ k. not (k == id)) (same e)
          ∙ or_left _ _ parts.0 (not-true _ (and_true (e.id == j) _ b).1)))
        parts.0)
      (set_open-settled id j f es same parts.1)

pub set_open-delivers :
    (id now : ℕ) (es : List StockDecrement)
    → all (is_settled id) (set_open (delivered_row now) id es) ≡ true
set_open-delivers id now [] = refl
set_open-delivers id now (e ∷ es) =
    elim (Bool-cases ((e.id == id) && not (is_some e.delivered_at))) [
      | inl b ↦ rw b (and_intro _ _ (or_true (not (e.id == id))) (set_open-delivers id now es))
      | inr b ↦ rw b (and_intro _ _ (implied (e.id == id) _ b) (set_open-delivers id now es))
    ]

absent : (id : ℕ) (ids : List ℕ) → all (λ i. not (i == id)) ids ≡ true → contains id ids ≡ false
absent id [] h = refl
absent id (i ∷ is) h = ground (arith, h, absent id is)

claim_stock_decrements-IsSettled :
    (id now until limit : ℕ) (d : Durable)
    → IsSettled id d
    → let (events, claimed) = claim_stock_decrements now until limit d in
      (contains id (ids_of events) ≡ false) × IsSettled id claimed
unfolding claim_stock_decrements
claim_stock_decrements-IsSettled id now until limit d h =
    let ids = due_ids now limit d.outbox in
    let others =
      all-due_ids (λ i. not (i == id)) now limit d.outbox (due_rows-settled id now d.outbox h) in
    (
      rows_with-contains id ids (lease_rows now until ids d.outbox) (absent id ids others),
      lease_rows-settled id now until ids d.outbox h,
    )

module _ (id : ℕ) where
  abbrev Settled : Store → Type 0
  Settled st = IsSettled id st.durable

  Leaves-mark : (j now : ℕ) → Leaves Settled (mark_delivered j now) Settled
  unfolding mark_delivered mark_stock_decrement_delivered
  Leaves-mark j now =
      Triple-call _
        (λ _ st h. set_open-settled id j (delivered_row now) st.durable.outbox (λ e. refl) h)
        (λ st h. h)

  Leaves-reschedule :
      (j next : ℕ) (message : List ℕ) (now : ℕ)
      → Leaves Settled (reschedule_event j next message now) Settled
  unfolding reschedule_event reschedule_stock_decrement
  Leaves-reschedule j next message now =
      Triple-call _
        (λ _ st h.
          set_open-settled id j (postponed_row next message now) st.durable.outbox (λ e. refl) h)
        (λ st h. h)

  Leaves-settle :
      (s : QueueService) (e : StockDecrement) (now : ℕ) (reply : Option (List ℕ))
      → Leaves Settled (settle_delivery s e now reply) Settled
  Leaves-settle s e now none = Leaves-mark e.id now
  Leaves-settle s e now (some message) =
      Triple-attempt
        (reschedule_event e.id (now + stock_outbox_backoff e.attempts s.stock_outbox_max_backoff)
          (truncate_error message) now)
        (λ r. raise (with_rollback unavailable r))
        (Leaves-reschedule e.id (now + stock_outbox_backoff e.attempts s.stock_outbox_max_backoff)
          (truncate_error message) now)
        (λ u. Triple-raise (with_rollback unavailable (ok u)) (λ st h. h))
        (λ error. Triple-raise (with_rollback unavailable (err error)) (λ st h. h))

  Leaves-deliver :
      (s : QueueService) (e : StockDecrement) → Leaves Settled (deliver_stock_decrement s e) Settled
  unfolding deliver_stock_decrement decrement_stock
  Leaves-deliver s e = Triple-clock _ λ now.
      Triple-bind (decrement_stock s e) _ (record { from = λ w h. h }) (Leaves-settle s e now)

  pub Leaves-deliver_events :
      (s : QueueService) (es : List StockDecrement) → Leaves Settled (deliver_events s es) Settled
  unfolding deliver_events
  Leaves-deliver_events s [] = Triple-pure tt (λ st h. h)
  Leaves-deliver_events s (e ∷ es) =
      Leaves-collect _ _ (Leaves-deliver s e) (Leaves-deliver_events s es)

  Leaves-process : (s : QueueService) → Leaves Settled (process_stock_decrement_outbox s) Settled
  unfolding process_stock_decrement_outbox claim_events
  Leaves-process s = Triple-clock _ λ now.
      Triple-bind _ (λ events. deliver_events s events)
        (Triple-call _ (λ _ st h. (claim_stock_decrements-IsSettled id now _ _ st.durable h).1)
          (λ st h. h))
        (λ events. Leaves-deliver_events s events)

-- A delivered event is in no claim of the outbox, at whichever time and with whichever lease and limit,
-- and a pass over the outbox leaves it delivered, whichever remote calls fail and whatever AvitoBackend
-- answers.
pub process_stock_decrement_outbox-IsSettled :
    (s : QueueService) (id : ℕ) (w : World)
    → IsSettled id w.store.durable
    → ((now until limit : ℕ)
        → contains id (ids_of (claim_stock_decrements now until limit w.store.durable).0) ≡ false)
      × IsSettled id (process_stock_decrement_outbox s w).1.store.durable
process_stock_decrement_outbox-IsSettled s id w h = (
  λ now until limit. (claim_stock_decrements-IsSettled id now until limit w.store.durable h).0,
  Leaves-after _ (Leaves-process id s) w h,
)
