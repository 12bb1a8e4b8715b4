-- ===== src/Oversell/Theorems.antt =====
-- No unit is promised twice: the operations of the service, with any of their remote calls failing.
use team_10_queue_serivce.Base.{ℕ, ap, arith}
use team_10_queue_serivce.Base.Int.{ℤ}
use team_10_queue_serivce.Models.{ExpiryClaim}
use team_10_queue_serivce.World.{World}
use team_10_queue_serivce.World.Triple.{Leaves-after}
use team_10_queue_serivce.Service.Config.{QueueService}
use team_10_queue_serivce.Service.Advance.{advance_queue}
use team_10_queue_serivce.Service.Join.{join_queue}
use team_10_queue_serivce.Service.Payment.{process_payment}
use team_10_queue_serivce.Service.Leave.{leave_queue, decline_offer}
use team_10_queue_serivce.Service.Offer.{accept_offer}
use team_10_queue_serivce.Service.Expiration.{handle_expired_key}
use team_10_queue_serivce.Oversell.{exactly, NoOversell}
use team_10_queue_serivce.Oversell.Advance.{Leaves-advance_queue}
use team_10_queue_serivce.Oversell.Join.{OthersKeep, Leaves-join_queue}
use team_10_queue_serivce.Oversell.Payment.{Leaves-process_payment}
use team_10_queue_serivce.Oversell.Ready.{Ready}
use team_10_queue_serivce.Oversell.Leave.{Leaves-leave_with}
use team_10_queue_serivce.Oversell.Accept.{Leaves-accept_offer}
use team_10_queue_serivce.Oversell.Expiration.{Leaves-handle_expired_key}

module _ (s : QueueService) (p : ℕ) where
  -- Product `p` is safe: nothing is under way, and what is promised is in the physical stock.
  abbrev pub IsSafe : World → Type 0
  IsSafe w = NoOversell (exactly (s.initial_stock p)) p 0 w.store

  -- Product `p` is safe, and PostgreSQL backs the cached membership of user `u` in queue `q`.
  abbrev pub IsReady : ℕ → ℕ → World → Type 0
  IsReady q u w = Ready (exactly (s.initial_stock p)) p q u w.store

  abbrev pub AreSafe : Type 0
  AreSafe = OthersKeep (exactly (s.initial_stock p)) p s

  -- Joining the queue of any product, for any quantity, keeps every product safe, whichever remote
  -- calls fail, if what other requests do during a wait does.
  pub join_queue-IsSafe :
      (q u : ℕ) (quantity : ℤ) (w : World)
      → AreSafe
      → IsSafe w
      → IsSafe (join_queue s q u quantity w).1
  join_queue-IsSafe q u quantity w keep h =
      Leaves-after _
        (Leaves-join_queue _ p s q u quantity
          (λ e. let same = ap s.initial_stock e in (omega arith, omega arith)) keep)
        w h

  -- Advancing the queue of any product keeps every product safe, whichever remote calls fail.
  pub advance_queue-IsSafe : (q : ℕ) (w : World) → IsSafe w → IsSafe (advance_queue s q w).1
  advance_queue-IsSafe q w h = Leaves-after _ (Leaves-advance_queue _ p s q) w h

  -- A payment webhook, also a repeated one, keeps every product safe, whichever remote calls fail.
  pub process_payment-IsSafe :
      (token order : ℕ) (w : World) → IsSafe w → IsSafe (process_payment s token order w).1
  process_payment-IsSafe token order w h =
      Leaves-after _ (Leaves-process_payment _ p s token order) w h

  -- Leaving a queue keeps every product safe, whichever remote calls fail, if PostgreSQL backs the
  -- leaving user's cached membership at the start.
  pub leave_queue-IsSafe : (q u : ℕ) (w : World) → IsReady q u w → IsSafe (leave_queue s q u w).1
  unfolding leave_queue
  leave_queue-IsSafe q u w h = Leaves-after _ (Leaves-leave_with _ p s q u _) w h

  -- Declining an offer keeps every product safe, whichever remote calls fail, if PostgreSQL backs the
  -- user's cached membership at the start.
  pub decline_offer-IsSafe :
      (q u : ℕ) (w : World) → IsReady q u w → IsSafe (decline_offer s q u w).1
  unfolding decline_offer
  decline_offer-IsSafe q u w h = Leaves-after _ (Leaves-leave_with _ p s q u _) w h

  -- Accepting an offer, for any quantity, keeps every product safe, whichever remote calls fail, if
  -- PostgreSQL backs the user's cached membership at the start and what other requests do during a
  -- wait keeps the product safe.
  pub accept_offer-IsSafe :
      (q u : ℕ) (quantity : ℤ) (w : World)
      → AreSafe
      → IsReady q u w
      → IsSafe (accept_offer s q u quantity w).1
  accept_offer-IsSafe q u quantity w keep h =
      Leaves-after _ (Leaves-accept_offer _ p s q u quantity keep) w h

  -- Handling an expired timer keeps every product safe, whichever remote calls fail, if PostgreSQL
  -- backs the cached membership of the timer's user at the start.
  pub handle_expired_key-IsSafe :
      (claim : ExpiryClaim) (now : ℕ) (w : World)
      → IsReady claim.product_id claim.user_id w
      → IsSafe (handle_expired_key s claim now w).1
  handle_expired_key-IsSafe claim now w h =
      Leaves-after _ (Leaves-handle_expired_key _ p s claim now) w h
