-- ===== src/Outbox/Delivers.antt =====
-- Passes over the outbox when nothing fails.
use team_10_queue_serivce.Base.{
  or_right, ==_sound, ℕ, ◌+◌, ◌≤◌, ◌≡◌, refl, sym, ap, ◌∙◌, true, not, ◌&&◌, is_some, map, ◌++◌,
  List, [], ◌∷◌, none, contains, length, ◌==◌, Bool-cases, inl, inr, subst,
}
use team_10_queue_serivce.Models.{StockDecrement}
use team_10_queue_serivce.Models.Result.{Result, ok, both}
use team_10_queue_serivce.World.{World, ◌>>=◌, call, time_now, advance_clock}
use team_10_queue_serivce.World.Triple.{Leaves-after}
use team_10_queue_serivce.Postgres.Outbox.{
  due_rows, due_ids, lease_rows, set_open, delivered_row, claim_stock_decrements,
  mark_stock_decrement_delivered,
}
use team_10_queue_serivce.Service.Config.{QueueService}
use team_10_queue_serivce.Service.Outbox.{
  call_of, decrement_stock, claim_events, mark_delivered, deliver_stock_decrement, deliver_events,
  process_stock_decrement_outbox,
}
use team_10_queue_serivce.Outbox.Rows.{ids_of}
use team_10_queue_serivce.Outbox.Settled.{IsSettled, set_open-delivers, Leaves-deliver_events}
use team_10_queue_serivce.Outbox.Claimed.{any, is_event, contains-any, claim_stock_decrements-all}

set_open-ids_of :
    (j : ℕ) (f : StockDecrement → StockDecrement) (es : List StockDecrement)
    → ((e : StockDecrement) → (f e).id ≡ e.id)
    → ids_of (set_open f j es) ≡ ids_of es
set_open-ids_of j f [] same = refl
set_open-ids_of j f (e ∷ es) same =
    elim (Bool-cases ((e.id == j) && not (is_some e.delivered_at))) [
      | inl b ↦ rw (b, same e, set_open-ids_of j f es same) refl
      | inr b ↦ rw (b, set_open-ids_of j f es same) refl
    ]

lease_rows-ids_of :
    (now until : ℕ) (ids : List ℕ) (es : List StockDecrement)
    → ids_of (lease_rows now until ids es) ≡ ids_of es
lease_rows-ids_of now until ids [] = refl
lease_rows-ids_of now until ids (e ∷ es) = elim (Bool-cases (contains e.id ids)) [
  | inl b ↦ rw (b, lease_rows-ids_of now until ids es) refl
  | inr b ↦ rw (b, lease_rows-ids_of now until ids es) refl
]

-- An action returned, no call will fail after it, AvitoBackend was sent the events and nothing else,
-- and the outbox has the rows that it had.
pub record Sends (es : List StockDecrement) (w : World) (out : Result (Unit {0}) × World)
    : Type 0 where
  pub returned : out.0 ≡ ok tt
  pub calm : out.1.faults ≡ []
  pub calls : out.1.sent ≡ w.sent ++ map call_of es
  pub same_rows : ids_of out.1.store.durable.outbox ≡ ids_of w.store.durable.outbox

advance_clock_lem :
    (ns : List ℕ) (w : World)
    → ((advance_clock ns w).faults ≡ w.faults)
      × ((advance_clock ns w).store ≡ w.store)
      × ((advance_clock ns w).sent ≡ w.sent)
advance_clock_lem [] w = (refl, refl, refl)
advance_clock_lem (n ∷ ns) w = (refl, refl, refl)

append-nil : {A : Type 0} (xs : List A) → xs ++ [] ≡ xs
append-nil [] = refl
append-nil (x ∷ xs) = ap (λ zs. x ∷ zs) (append-nil xs)

append-cons : {A : Type 0} (xs : List A) (x : A) (ys : List A) → (xs ++ x ∷ []) ++ ys ≡ xs ++ x ∷ ys
append-cons [] x ys = refl
append-cons (y ∷ xs) x ys = ap (λ zs. y ∷ zs) (append-cons xs x ys)

-- What a mark does if no call fails.
record Marks (j : ℕ) (w : World) (out : Result (Unit {0}) × World) : Type 0 where
  pub returned : out.0 ≡ ok tt
  pub calm : out.1.faults ≡ []
  pub same_calls : out.1.sent ≡ w.sent
  pub same_rows : ids_of out.1.store.durable.outbox ≡ ids_of w.store.durable.outbox
  pub settled : IsSettled j out.1.store.durable

mark_delivered-Marks : (j now : ℕ) (w : World) → w.faults ≡ [] → Marks j w (mark_delivered j now w)
unfolding mark_delivered mark_stock_decrement_delivered call
mark_delivered-Marks j now w h = rw h (record {
  returned = refl;
  calm = refl;
  same_calls = refl;
  same_rows = set_open-ids_of j (delivered_row now) w.store.durable.outbox (λ e. refl);
  settled = set_open-delivers j now w.store.durable.outbox;
})

module _ (s : QueueService) (accepts : (e : StockDecrement) → s.decrement_reply e ≡ none) where
  deliver_stock_decrement-Sends :
      (e : StockDecrement) (w : World)
      → w.faults ≡ []
      → let out = deliver_stock_decrement s e w in
        Sends (e ∷ []) w out × IsSettled e.id out.1.store.durable
  unfolding deliver_stock_decrement decrement_stock time_now
  deliver_stock_decrement-Sends e w h =
      let w' = advance_clock w.elapsed w in
      let (faults, store, sent) = advance_clock_lem w.elapsed w in
      let k =
        mark_delivered-Marks e.id w'.clock (record w' { sent = w'.sent ++ call_of e ∷ [] })
          (faults ∙ h) in
      rw (accepts e) (
        record {
          returned = k.returned;
          calm = k.calm;
          calls = k.same_calls ∙ ap (λ cs. cs ++ call_of e ∷ []) sent;
          same_rows = k.same_rows ∙ ap (λ st. ids_of st.durable.outbox) store;
        },
        k.settled,
      )

  deliver_events-Sends :
      (es : List StockDecrement) (w : World)
      → w.faults ≡ []
      → let out = deliver_events s es w in
        Sends es w out × ((i : ℕ) → contains i (ids_of es) ≡ true → IsSettled i out.1.store.durable)
  unfolding deliver_events
  deliver_events-Sends [] w h = (
    record { returned = refl; calm = h; calls = sym (append-nil w.sent); same_rows = refl },
    λ i c. cc,
  )
  deliver_events-Sends (e ∷ es) w h =
      let (head, marked) = deliver_stock_decrement-Sends e w h in
      let w' = (deliver_stock_decrement s e w).1 in
      let (rest, others) = deliver_events-Sends es w' head.calm in
      (
        record {
          returned = ap (λ r. both r (deliver_events s es w').0) head.returned ∙ rest.returned;
          calm = rest.calm;
          calls =
              rest.calls
              ∙ ap (λ cs. cs ++ map call_of es) head.calls
              ∙ append-cons w.sent (call_of e) (map call_of es);
          same_rows = rest.same_rows ∙ head.same_rows;
        },
        λ i c. elim (Bool-cases (e.id == i)) [
          | inl k ↦
              Leaves-after (deliver_events s es) (Leaves-deliver_events i s es) w'
                (subst (λ j. IsSettled j w'.store.durable) (==_sound e.id i k) marked)
          | inr k ↦ others i (or_right (e.id == i) (contains i (ids_of es)) c k)
        ],
      )

-- The pass returned, AvitoBackend was sent exactly `events`, among them `n` units of product `p` with
-- the key `i`, and every row of the outbox is still there, that of the key as a delivered one.
pub record Delivers (i p n : ℕ) (w : World) (out : Result (Unit {0}) × World)
    (events : List StockDecrement) : Type 0 where
  pub sends : Sends events w out
  pub is_sent : any (is_event i p n) events ≡ true
  pub is_settled : IsSettled i out.1.store.durable

module _ (s : QueueService) (accepts : (e : StockDecrement) → s.decrement_reply e ≡ none)
    (i p n : ℕ) where
  claim_events-Delivers :
      (now until limit : ℕ) (w : World)
      → w.faults ≡ []
      → length (due_rows now w.store.durable.outbox) ≤ limit
      → any (is_event i p n) (due_rows now w.store.durable.outbox) ≡ true
      → (events : List StockDecrement) × Delivers i p n w
          ((claim_events now until limit >>= λ events. deliver_events s events) w)
          events
  unfolding claim_events claim_stock_decrements call
  claim_events-Delivers now until limit w h few due =
      let claim = claim_stock_decrements now until limit w.store.durable in
      let w' = record w { store = record w.store { durable = claim.1 }; faults = [] } in
      let (sent, settled) = deliver_events-Sends s accepts claim.0 w' refl in
      let among = claim_stock_decrements-all i p n now until limit w.store.durable few due in
      rw h (
        claim.0,
        record {
          sends = record {
            returned = sent.returned;
            calm = sent.calm;
            calls = sent.calls;
            same_rows =
                sent.same_rows
                ∙ lease_rows-ids_of now until (due_ids now limit w.store.durable.outbox)
                    w.store.durable.outbox;
          };
          is_sent = among;
          is_settled = settled i (contains-any i p n claim.0 among);
        },
      )

-- If no remote call fails and AvitoBackend accepts every event, then a pass over the outbox returns. An
-- event that is due when the pass begins is among the events that the pass sends to AvitoBackend, with
-- its key, product and quantity, and these are all that it sends; the event is delivered after the
-- pass, and no row of the outbox is lost, if no more events are due than a batch holds.
pub process_stock_decrement_outbox-Delivers :
    (s : QueueService) (i p n : ℕ) (w : World)
    → ((e : StockDecrement) → s.decrement_reply e ≡ none)
    → w.faults ≡ []
    → let due = due_rows (time_now w).1.clock w.store.durable.outbox in
      length due ≤ s.stock_outbox_batch_size
      → any (is_event i p n) due ≡ true
      → (events : List StockDecrement) × Delivers i p n w
          (process_stock_decrement_outbox s w)
          events
unfolding process_stock_decrement_outbox time_now
process_stock_decrement_outbox-Delivers s i p n w accepts h few due =
    let w' = advance_clock w.elapsed w in
    let (faults, store, sent) = advance_clock_lem w.elapsed w in
    let (events, k) =
      claim_events-Delivers s accepts i p n w'.clock (w'.clock + s.stock_outbox_lease)
        s.stock_outbox_batch_size w' (faults ∙ h)
        (subst (λ st. length (due_rows w'.clock st.durable.outbox) ≤ s.stock_outbox_batch_size)
          (sym store) few)
        (subst (λ st. any (is_event i p n) (due_rows w'.clock st.durable.outbox) ≡ true) (sym store)
          due) in
    (
      events,
      record {
        sends = record {
          returned = k.sends.returned;
          calm = k.sends.calm;
          calls = k.sends.calls ∙ ap (λ cs. cs ++ map call_of events) sent;
          same_rows = k.sends.same_rows ∙ ap (λ st. ids_of st.durable.outbox) store;
        };
        is_sent = k.is_sent;
        is_settled = k.is_settled;
      },
    )
