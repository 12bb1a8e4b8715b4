-- ===== src/Lasting/Workers.antt =====
-- RefreshUserPresence, the pass over the outbox and the validation of rights keep what lasts of the
-- rights.
use team_10_queue_serivce.Base.{ℕ, ◌+◌, refl, not, List, [], ◌∷◌, Option, none, some, ltb, ◌==◌}
use team_10_queue_serivce.Models.Status.{RightStatus, active, expired, used, is_queued}
use team_10_queue_serivce.Models.{
  QueueMembership, Right, StockDecrement, unavailable, token_used, token_expired, invalid_status,
  forbidden, is_token_not_found, presence_claim_product,
}
use team_10_queue_serivce.Models.Result.{Result, ok, err, with_rollback}
use team_10_queue_serivce.World.{pure, raise}
use team_10_queue_serivce.World.Triple.{
  Triple-bind, Triple-if, Triple-clock, Triple-attempt, Leaves-collect,
}
use team_10_queue_serivce.Redis.Repo.{
  get_right, set_right, get_membership, list_queued_products, set_user_presence_deadline,
  remove_from_queue, refresh_expiry_timer,
}
use team_10_queue_serivce.Postgres.Outbox.{
  claim_stock_decrements, mark_stock_decrement_delivered, reschedule_stock_decrement,
}
use team_10_queue_serivce.Service.Config.{QueueService, get_durable_right}
use team_10_queue_serivce.Service.Presence.{
  is_missing, refresh_membership, refresh_product, refresh_products, refresh_user_presence,
}
use team_10_queue_serivce.Service.Outbox.{
  claim_events, mark_delivered, reschedule_event, settle_delivery, decrement_stock,
  deliver_stock_decrement, deliver_events, process_stock_decrement_outbox, stock_outbox_backoff,
  truncate_error,
}
use team_10_queue_serivce.Service.Payment.{
  refetch_right, or_refetch, fetch_right, by_right_status, get_active_right, validate_right,
  validate_right_for_checkout,
}
use team_10_queue_serivce.Lasting.{Keeps}
use team_10_queue_serivce.Lasting.Calls.{Keeps-call, Keeps-pure, Keeps-raise, Keeps-with_claim}
use team_10_queue_serivce.Lasting.Advance.{Keeps-set_right, Keeps-get_membership}

module _ (K : List Right → Type 0) where
  module _ (u : ℕ) where
    Keeps-remove : (p : ℕ) → Keeps K (remove_from_queue p u)
    unfolding remove_from_queue
    Keeps-remove p = Keeps-call K _ (λ now st. refl)

    Keeps-refresh_membership :
        (p deadline : ℕ) (r : Result QueueMembership) → Keeps K (refresh_membership p u deadline r)
    unfolding refresh_expiry_timer
    Keeps-refresh_membership p deadline (ok m) =
        Triple-if (not (is_queued m.status)) _ _ (λ _. Keeps-remove p)
          (λ _. Triple-bind _ _ (Keeps-call K _ (λ now st. refl)) (λ _. Keeps-pure K tt))
    Keeps-refresh_membership p deadline (err e) =
        Triple-if (is_missing e) _ _ (λ _. Keeps-remove p) (λ _. Keeps-raise K e)

    Keeps-refresh_products : (deadline : ℕ) (ps : List ℕ) → Keeps K (refresh_products u deadline ps)
    unfolding refresh_products refresh_product
    Keeps-refresh_products deadline [] = Keeps-pure K tt
    Keeps-refresh_products deadline (p ∷ ps) =
        Leaves-collect _ _
          (Triple-attempt (get_membership p u) (refresh_membership p u deadline)
            (Keeps-get_membership K p u) (λ m. Keeps-refresh_membership p deadline (ok m))
            (λ e. Keeps-refresh_membership p deadline (err e)))
          (Keeps-refresh_products deadline ps)

    pub Keeps-refresh_user_presence : (s : QueueService) → Keeps K (refresh_user_presence s u)
    unfolding refresh_user_presence list_queued_products set_user_presence_deadline
    Keeps-refresh_user_presence s =
        Keeps-with_claim K presence_claim_product u _ _ (Keeps-pure K tt) (
          Triple-bind _ _ (Keeps-call K _ (λ now st. refl)) λ ps. Triple-clock _ λ now.
            Triple-bind _ _ (Keeps-call K _ (λ now st. refl))
              λ _. Keeps-refresh_products (now + s.presence_timeout) ps)

  module _ (s : QueueService) where
    Keeps-reschedule :
        (id t : ℕ) (message : List ℕ) (now : ℕ) → Keeps K (reschedule_event id t message now)
    unfolding reschedule_event reschedule_stock_decrement
    Keeps-reschedule id t message now = Keeps-call K _ (λ now st. refl)

    Keeps-settle_delivery :
        (event : StockDecrement) (now : ℕ) (reply : Option (List ℕ))
        → Keeps K (settle_delivery s event now reply)
    unfolding mark_delivered mark_stock_decrement_delivered
    Keeps-settle_delivery event now none = Keeps-call K _ (λ now st. refl)
    Keeps-settle_delivery event now (some message) =
        Triple-attempt
          (reschedule_event event.id
            (now + stock_outbox_backoff event.attempts s.stock_outbox_max_backoff)
            (truncate_error message) now)
          (λ rescheduled. raise (with_rollback unavailable rescheduled))
          (Keeps-reschedule _ _ _ now) (λ _. Keeps-raise K _) (λ _. Keeps-raise K _)

    Keeps-deliver_events : (es : List StockDecrement) → Keeps K (deliver_events s es)
    unfolding deliver_events deliver_stock_decrement decrement_stock
    Keeps-deliver_events [] = Keeps-pure K tt
    Keeps-deliver_events (e ∷ es) =
        Leaves-collect _ _
          (Triple-clock _ λ now.
            Triple-bind (decrement_stock s e) _ (record { from = λ w h. h })
              (Keeps-settle_delivery e now))
          (Keeps-deliver_events es)

    pub Keeps-process_outbox : Keeps K (process_stock_decrement_outbox s)
    unfolding process_stock_decrement_outbox claim_events claim_stock_decrements
    Keeps-process_outbox =
        Triple-clock _ λ now. Triple-bind _ _ (Keeps-call K _ (λ now st. refl)) Keeps-deliver_events

  Keeps-refetch : (token : ℕ) → Keeps K (refetch_right token)
  unfolding refetch_right get_durable_right
  Keeps-refetch token = Triple-bind _ _ (Keeps-call K _ (λ now st. refl)) λ r.
      Triple-attempt (set_right r) (λ _. pure r) (Keeps-set_right K r) (λ _. Keeps-pure K r)
        (λ _. Keeps-pure K r)

  Keeps-get_right : (token : ℕ) → Keeps K (get_right token)
  unfolding get_right
  Keeps-get_right token = Keeps-call K _ (λ now st. refl)

  Keeps-by_right_status : (status : RightStatus) (r : Right) → Keeps K (by_right_status status r)
  Keeps-by_right_status used r = Keeps-raise K token_used
  Keeps-by_right_status expired r = Keeps-raise K token_expired
  Keeps-by_right_status active r = Triple-clock _ λ now.
      Triple-if (ltb now r.expires_at) _ _ (λ _. Keeps-pure K r) (λ _. Keeps-raise K token_expired)
  Keeps-by_right_status (RightStatus.other t) r = Keeps-raise K invalid_status

  Keeps-get_active_right : (token : ℕ) → Keeps K (get_active_right token)
  unfolding get_active_right fetch_right
  Keeps-get_active_right token =
      Triple-bind _ _
        (Triple-attempt (get_right token) (or_refetch token) (Keeps-get_right token)
          (λ r. Keeps-pure K r)
          λ e.
            Triple-if (is_token_not_found e) _ _ (λ _. Keeps-refetch token) (λ _. Keeps-raise K e))
        (λ r. Keeps-by_right_status r.status r)

  pub Keeps-validate_right : (token u : ℕ) → Keeps K (validate_right token u)
  unfolding validate_right
  Keeps-validate_right token u =
      Triple-bind _ _ (Keeps-get_active_right token)
        λ r. Triple-if (r.user_id == u) _ _ (λ _. Keeps-pure K r) (λ _. Keeps-raise K forbidden)

  pub Keeps-validate_for_checkout : (token p : ℕ) → Keeps K (validate_right_for_checkout token p)
  unfolding validate_right_for_checkout
  Keeps-validate_for_checkout token p =
      Triple-bind _ _ (Keeps-get_active_right token)
        λ r. Triple-if (r.product_id == p) _ _ (λ _. Keeps-pure K r) (λ _. Keeps-raise K forbidden)
