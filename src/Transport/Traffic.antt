-- ===== src/Transport/Traffic.antt =====
-- One request, or a pass that advances a queue.
use team_10_queue_serivce.Base.{ℕ, sym, subst, Bool, true, false, Option, none, some}
use team_10_queue_serivce.Base.Int.{ℤ}
use team_10_queue_serivce.World.{World}
use team_10_queue_serivce.Service.Config.{QueueService}
use team_10_queue_serivce.Service.Advance.{advance_queue}
use team_10_queue_serivce.Service.Presence.{refresh_user_presence}
use team_10_queue_serivce.World.Triple.{Leaves-after}
use team_10_queue_serivce.Oversell.{Unsaved, IsWithin, NoOversell}
use team_10_queue_serivce.Oversell.Advance.{Leaves-advance_queue}
use team_10_queue_serivce.Oversell.Join.{OthersKeep, Leaves-join_queue}
use team_10_queue_serivce.Oversell.Payment.{Leaves-process_payment}
use team_10_queue_serivce.Presence.{refresh_user_presence-SameHoldings}
use team_10_queue_serivce.Transport.Handlers.{join, right_events}

-- A request to join with its body, a reported payment with its body, a pass that advances a queue, and
-- a heartbeat of a user.
pub data Request : Type 0 where
  joins : ℕ → ℕ → Option ℤ → Request
  reports : ℕ → Option (Bool × ℕ) → Request
  advances : ℕ → Request
  beats : ℕ → Request

abbrev pub serve_one : QueueService → Request → World → World
serve_one s (joins p u body) w = (join s p u body w).1
serve_one s (reports token body) w = (right_events s token body w).1
serve_one s (advances p) w = (advance_queue s p w).1
serve_one s (beats u) w = (refresh_user_presence s u w).1

module _ (total : Unsaved) (p : ℕ) (s : QueueService) where
  -- Product `p` is safe, with `total` for what is not yet written.
  abbrev Safe : World → Type 0
  Safe w = NoOversell total p 0 w.store

  join-keeps :
      (q u : ℕ) (body : Option ℤ) (w : World)
      → IsWithin total (s.initial_stock p)
      → OthersKeep total p s
      → Safe w
      → Safe (join s q u body w).1
  unfolding join
  join-keeps q u none w answer keep h = h
  join-keeps q u (some n) w answer keep h =
      Leaves-after _
        (Leaves-join_queue total p s q u n
          (λ e. subst (λ i. IsWithin total (s.initial_stock i)) (sym e) answer) keep)
        w h

  right_events-keeps :
      (token : ℕ) (body : Option (Bool × ℕ)) (w : World)
      → Safe w
      → Safe (right_events s token body w).1
  unfolding right_events
  right_events-keeps token none w h = h
  right_events-keeps token (some (true, order)) w h =
      Leaves-after _ (Leaves-process_payment total p s token order) w h
  right_events-keeps token (some (false, order)) w h = h

  refresh_user_presence-keeps : (u : ℕ) (w : World) → Safe w → Safe (refresh_user_presence s u w).1
  refresh_user_presence-keeps u w h =
      let same = refresh_user_presence-SameHoldings s u w in
      record {
        keyed = rw same.same_members h.keyed;
        bounded = rw (same.same_tables, same.same_stocks) h.bounded;
      }

  -- One of them, whatever its body is, keeps every product safe, if AvitoBackend's answer may be
  -- written.
  pub serve_one-keeps :
      (r : Request) (w : World)
      → IsWithin total (s.initial_stock p)
      → OthersKeep total p s
      → Safe w
      → Safe (serve_one s r w)
  serve_one-keeps (joins q u body) w answer keep h = join-keeps q u body w answer keep h
  serve_one-keeps (reports token body) w answer keep h = right_events-keeps token body w h
  serve_one-keeps (advances q) w answer keep h =
      Leaves-after _ (Leaves-advance_queue total p s q) w h
  serve_one-keeps (beats u) w answer keep h = refresh_user_presence-keeps u w h
