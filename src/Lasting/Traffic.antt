-- ===== src/Lasting/Traffic.antt =====
-- Requests, passes of the workers and restarts, one after the other.
use team_10_queue_serivce.Base.{ℕ, Bool, true, false, List, [], ◌∷◌, Option, none, some, ◌==◌}
use team_10_queue_serivce.Base.Int.{ℤ}
use team_10_queue_serivce.Models.{Right, empty_id}
use team_10_queue_serivce.World.{World, M, pure}
use team_10_queue_serivce.World.Triple.{Triple-if, Triple-attempt, Leaves-after}
use team_10_queue_serivce.Service.Config.{QueueService}
use team_10_queue_serivce.Service.Advance.{advance_queue}
use team_10_queue_serivce.Service.Leave.{decline_offer}
use team_10_queue_serivce.Service.Expiration.{process_expirations}
use team_10_queue_serivce.Service.Presence.{refresh_user_presence}
use team_10_queue_serivce.Service.Outbox.{process_stock_decrement_outbox}
use team_10_queue_serivce.Service.Recovery.{recover_cache}
use team_10_queue_serivce.Transport.Handlers.{
  Reply, respond, answer, join, accept, leave, right_events, check_right, check_right_for_checkout,
}
use team_10_queue_serivce.Lasting.{IsLasting, Kept, Keeps, OthersKeep}
use team_10_queue_serivce.Lasting.Calls.{Keeps-pure}
use team_10_queue_serivce.Lasting.Advance.{Keeps-advance_queue, Keeps-process_payment}
use team_10_queue_serivce.Lasting.Join.{Keeps-join_queue, Keeps-accept_offer}
use team_10_queue_serivce.Lasting.Leave.{Keeps-leave_queue, Keeps-decline_offer}
use team_10_queue_serivce.Lasting.Expiration.{Keeps-process_expirations}
use team_10_queue_serivce.Lasting.Workers.{
  Keeps-refresh_user_presence, Keeps-process_outbox, Keeps-validate_right,
  Keeps-validate_for_checkout,
}
use team_10_queue_serivce.Lasting.Recovery.{Keeps-recover_cache}

-- The requests with their bodies, a call of DeclineOffer, a user's heartbeat, the passes of the two
-- workers and over a product's queue, and a restart, which recovers the cache.
pub data Event : Type 0 where
  joins accepts : ℕ → ℕ → Option ℤ → Event
  leaves declines : ℕ → ℕ → Event
  reports : ℕ → Option (Bool × ℕ) → Event
  validates : ℕ → ℕ → Event
  checks_out : ℕ → Option ℕ → Event
  beats advances : ℕ → Event
  expires delivers restarts : Event

abbrev pub handle : QueueService → Event → World → World
handle s (joins p u body) w = (join s p u body w).1
handle s (accepts p u body) w = (accept s p u body w).1
handle s (leaves p u) w = (leave s p u w).1
handle s (declines p u) w = (decline_offer s p u w).1
handle s (reports token body) w = (right_events s token body w).1
handle s (validates token u) w = (check_right token u w).1
handle s (checks_out token body) w = (check_right_for_checkout token body w).1
handle s (beats u) w = (refresh_user_presence s u w).1
handle s (advances p) w = (advance_queue s p w).1
handle s expires w = (process_expirations s w).1
handle s delivers w = (process_stock_decrement_outbox s w).1
handle s restarts w = (recover_cache w).1

abbrev pub handle_all : QueueService → List Event → World → World
handle_all s [] w = w
handle_all s (e ∷ es) w = handle_all s es (handle s e w)

module _ (K : List Right → Type 0) where
  Keeps-answer : {A : Type 0} (f : A → Reply) (m : M A) → Keeps K m → Keeps K (answer f m)
  Keeps-answer f m h =
      Triple-attempt m (λ r. pure (respond f r)) h (λ a. Keeps-pure K _) (λ e. Keeps-pure K _)

  Keeps-check_right : (token u : ℕ) → Keeps K (check_right token u)
  unfolding check_right
  Keeps-check_right token u = Keeps-answer _ _ (Keeps-validate_right K token u)

  pub Keeps-check_right_for_checkout :
      (token : ℕ) (body : Option ℕ) → Keeps K (check_right_for_checkout token body)
  unfolding check_right_for_checkout
  Keeps-check_right_for_checkout token none = Keeps-pure K _
  Keeps-check_right_for_checkout token (some p) =
      Triple-if (p == empty_id) _ _ (λ _. Keeps-pure K _)
        (λ _. Keeps-answer _ _ (Keeps-validate_for_checkout K token p))

  module _ (lasts : IsLasting K) (s : QueueService) where
    Keeps-leave : (p u : ℕ) → Keeps K (leave s p u)
    unfolding leave
    Keeps-leave p u = Keeps-answer _ _ (Keeps-leave_queue K lasts s p u)

    Keeps-right_events :
        (token : ℕ) (body : Option (Bool × ℕ)) → Keeps K (right_events s token body)
    unfolding right_events
    Keeps-right_events token none = Keeps-pure K _
    Keeps-right_events token (some (true, order)) =
        Keeps-answer _ _ (Keeps-process_payment K lasts s token order)
    Keeps-right_events token (some (false, order)) = Keeps-pure K _

    module _ (others : OthersKeep K s) where
      Keeps-join : (p u : ℕ) (body : Option ℤ) → Keeps K (join s p u body)
      unfolding join
      Keeps-join p u none = Keeps-pure K _
      Keeps-join p u (some n) = Keeps-answer _ _ (Keeps-join_queue K lasts s others p u n)

      Keeps-accept : (p u : ℕ) (body : Option ℤ) → Keeps K (accept s p u body)
      unfolding accept
      Keeps-accept p u none = Keeps-pure K _
      Keeps-accept p u (some n) = Keeps-answer _ _ (Keeps-accept_offer K lasts s others p u n)

      handle-Kept : (e : Event) (w : World) → Kept K w.store → Kept K (handle s e w).store
      handle-Kept (joins p u body) = Leaves-after _ (Keeps-join p u body)
      handle-Kept (accepts p u body) = Leaves-after _ (Keeps-accept p u body)
      handle-Kept (leaves p u) = Leaves-after _ (Keeps-leave p u)
      handle-Kept (declines p u) = Leaves-after _ (Keeps-decline_offer K lasts s p u)
      handle-Kept (reports token body) = Leaves-after _ (Keeps-right_events token body)
      handle-Kept (validates token u) = Leaves-after _ (Keeps-check_right token u)
      handle-Kept (checks_out token body) =
          Leaves-after _ (Keeps-check_right_for_checkout token body)
      handle-Kept (beats u) = Leaves-after _ (Keeps-refresh_user_presence K u s)
      handle-Kept (advances p) = Leaves-after _ (Keeps-advance_queue K lasts s p)
      handle-Kept expires = Leaves-after _ (Keeps-process_expirations K lasts s)
      handle-Kept delivers = Leaves-after _ (Keeps-process_outbox K s)
      handle-Kept restarts = Leaves-after _ (Keeps-recover_cache K lasts)

      pub handle_all-Kept :
          (es : List Event) (w : World) → Kept K w.store → Kept K (handle_all s es w).store
      handle_all-Kept [] w h = h
      handle_all-Kept (e ∷ es) w h = handle_all-Kept es (handle s e w) (handle-Kept e w h)
