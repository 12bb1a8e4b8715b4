-- ===== src/Transport/Reached.antt =====
-- The worlds that requests and workers reach, those included that end a participation.
use team_10_queue_serivce.Base.{
  ℕ, ◌+◌, ◌≤◌, ◌≡◌, ◌⊎◌, Option, none, some, arith, inl, inr, Option-cases,
}
use team_10_queue_serivce.Base.Int.{ℤ}
use team_10_queue_serivce.Models.{QueueMembership, ProductStock, ExpiryClaim}
use team_10_queue_serivce.Redis.State.{Stock}
use team_10_queue_serivce.Postgres.Rows.{find_stock}
use team_10_queue_serivce.World.{World, Store}
use team_10_queue_serivce.World.Triple.{Leaves-after}
use team_10_queue_serivce.Service.Config.{QueueService}
use team_10_queue_serivce.Service.Leave.{leave_queue, decline_offer}
use team_10_queue_serivce.Service.Expiration.{handle_expired_key}
use team_10_queue_serivce.Oversell.{
  Unsaved, exactly, IsWithin, NoOversell, pool_of, count_of, held, physical,
}
use team_10_queue_serivce.Oversell.Ready.{IsBacked}
use team_10_queue_serivce.Oversell.Join.{OthersKeep}
use team_10_queue_serivce.Oversell.Leave.{Leaves-leave_with}
use team_10_queue_serivce.Oversell.Accept.{Leaves-accept_offer}
use team_10_queue_serivce.Oversell.Expiration.{Leaves-handle_expired_key}
use team_10_queue_serivce.Transport.Handlers.{accept, leave}
use team_10_queue_serivce.Transport.Traffic.{Request, serve_one, serve_one-keeps}

-- PostgreSQL backs the cached membership of user `u` in queue `q`.
abbrev pub Backs : ℕ → ℕ → World → Type 0
Backs q u w =
    (m : QueueMembership) → w.store.cache.members q u ≡ some m → IsBacked m w.store.durable

-- A request or a timer that is handled. Where units are given back, PostgreSQL backs the cached
-- membership.
pub data Step (s : QueueService) (w : World) : World → Type 0 where
  serves : (r : Request) → Step s w (serve_one s r w)
  leaves : (q u : ℕ) → Backs q u w → Step s w (leave s q u w).1
  declines : (q u : ℕ) → Backs q u w → Step s w (decline_offer s q u w).1
  accepts : (q u : ℕ) (body : Option ℤ) → Backs q u w → Step s w (accept s q u body w).1
  expires :
      (claim : ExpiryClaim) (now : ℕ)
      → Backs claim.product_id claim.user_id w
      → Step s w (handle_expired_key s claim now w).1

-- Redis has no stock of the product, or PostgreSQL has no row of it.
abbrev pub IsUnknown : ℕ → Store → Type 0
IsUnknown p st = (st.cache.stocks p ≡ none) ⊎ (find_stock p st.durable.stocks ≡ none)

-- The service, while AvitoBackend answers `f`.
abbrev pub answering : QueueService → (ℕ → ℕ) → QueueService
answering s f = record s { initial_stock = f }

-- AvitoBackend may answer differently at each step; for product `p` it answers `total` until both stores
-- have the stock.
pub data Reaches (s : QueueService) (p total : ℕ) (w : World) : World → Type 0 where
  start : Reaches s p total w w
  later :
      {x y : World} (f : ℕ → ℕ)
      → Reaches s p total w x
      → (IsUnknown p x.store → f p ≡ total)
      → Step (answering s f) x y
      → Reaches s p total w y

module _ (total : Unsaved) (p : ℕ) (s : QueueService) where
  leave-keeps :
      (q u : ℕ) (w : World)
      → NoOversell total p 0 w.store
      → Backs q u w
      → NoOversell total p 0 (leave s q u w).1.store
  unfolding leave leave_queue
  leave-keeps q u w h b =
      Leaves-after _ (Leaves-leave_with total p s q u _) w (record { safe = h; backed = b })

  decline-keeps :
      (q u : ℕ) (w : World)
      → NoOversell total p 0 w.store
      → Backs q u w
      → NoOversell total p 0 (decline_offer s q u w).1.store
  unfolding decline_offer
  decline-keeps q u w h b =
      Leaves-after _ (Leaves-leave_with total p s q u _) w (record { safe = h; backed = b })

  accept-keeps :
      (q u : ℕ) (body : Option ℤ) (w : World)
      → OthersKeep total p s
      → NoOversell total p 0 w.store
      → Backs q u w
      → NoOversell total p 0 (accept s q u body w).1.store
  unfolding accept
  accept-keeps q u none w keep h b = h
  accept-keeps q u (some n) w keep h b =
      Leaves-after _ (Leaves-accept_offer total p s q u n keep) w (record { safe = h; backed = b })

  Step-keeps :
      (w : World) {x : World}
      → IsWithin total (s.initial_stock p)
      → OthersKeep total p s
      → Step s w x
      → NoOversell total p 0 w.store
      → NoOversell total p 0 x.store
  Step-keeps w answer keep (serves r) h = serve_one-keeps total p s r w answer keep h
  Step-keeps w answer keep (leaves q u b) h = leave-keeps q u w h b
  Step-keeps w answer keep (declines q u b) h = decline-keeps q u w h b
  Step-keeps w answer keep (accepts q u body b) h = accept-keeps q u body w keep h b
  Step-keeps w answer keep (expires claim now b) h =
      Leaves-after _ (Leaves-handle_expired_key total p s claim now) w
        (record { safe = h; backed = b })

-- Where both stores have the stock, what counts for a product without one does not matter.
known-NoOversell :
    (total total' : Unsaved) (p : ℕ) (st : Store) (a : Stock) (c : ProductStock)
    → st.cache.stocks p ≡ some a
    → find_stock p st.durable.stocks ≡ some c
    → NoOversell total p 0 st
    → NoOversell total' p 0 st
known-NoOversell total total' p st a c ea ec h = record {
  keyed = h.keyed;
  bounded = ground (arith, h.bounded, ea, ec);
}

bounded_by :
    (total most n : ℕ) (o : Option Stock) (r : Option ProductStock)
    → count_of (exactly 0) r + 1 ≤ most
    → pool_of (record { most = most; least = 0 }) o + n + 0
      ≤ count_of (record { most = most; least = 0 }) r
    → pool_of (exactly total) o + n + 0 ≤ count_of (exactly total) r
bounded_by total most n none none le h = omega arith
bounded_by total most n none (some c) le h = omega arith
bounded_by total most n (some a) none le h = omega arith
bounded_by total most n (some a) (some c) le h = h

-- What holds however much counts for a product without stock holds for the right number.
exactly-NoOversell :
    (p total t : ℕ) (st : Store)
    → ((unsaved : Unsaved)
        → IsWithin unsaved total
        → IsWithin unsaved t
        → NoOversell unsaved p 0 st)
    → NoOversell (exactly total) p 0 st
exactly-NoOversell p total t st h =
    let most = total + t + physical (exactly 0) p st.durable + 1 in
    let k =
      h (record { most = most; least = 0 }) (omega arith, omega arith) (omega arith, omega arith) in
    record {
      keyed = k.keyed;
      bounded =
          bounded_by total most (held p st.durable) (st.cache.stocks p)
            (find_stock p st.durable.stocks) (omega arith) k.bounded;
    }

-- A step, with whatever answer where both stores have the stock.
later-NoOversell :
    (s : QueueService) (p total : ℕ) (f : ℕ → ℕ) (x : World) {y : World}
    → ((unsaved : Unsaved) → IsWithin unsaved total → OthersKeep unsaved p s)
    → (IsUnknown p x.store → f p ≡ total)
    → Step (answering s f) x y
    → NoOversell (exactly total) p 0 x.store
    → NoOversell (exactly total) p 0 y.store
later-NoOversell s p total f x {y} others answer step h =
    elim (Option-cases (x.store.cache.stocks p)) [
      | inl e ↦ unknown (answer (inl e))
      | inr (a, ea) ↦ elim (Option-cases (find_stock p x.store.durable.stocks)) [
        | inl e ↦ unknown (answer (inr e))
        | inr (c, ec) ↦ exactly-NoOversell p total (f p) y.store λ unsaved around_total around.
            Step-keeps unsaved p (answering s f) x around (others unsaved around_total) step
              (known-NoOversell (exactly total) unsaved p x.store a c ea ec h)
      ]
    ]
  where
    unknown : f p ≡ total → NoOversell (exactly total) p 0 y.store
    unknown e =
        Step-keeps (exactly total) p (answering s f) x (omega arith, omega arith)
          (others (exactly total) (omega arith, omega arith)) step h

-- A safe product is safe in every world that requests to join, to leave, to decline and to accept,
-- reported payments, passes that advance queues, heartbeats and timers that run out lead to, in any
-- order, for any products and users, whichever remote calls fail and whatever AvitoBackend answers at
-- each step, if it answers the same for the product until both stores have its stock, if PostgreSQL
-- backs the cached membership where a user leaves, declines or accepts or a timer runs out, and if what
-- other requests do during a wait keeps the product safe, also with more units counted for its pool or
-- fewer for its row until these are written.
pub Reaches-IsSafe :
    (s : QueueService) (p total : ℕ) (w x : World)
    → ((unsaved : Unsaved) → IsWithin unsaved total → OthersKeep unsaved p s)
    → NoOversell (exactly total) p 0 w.store
    → Reaches s p total w x
    → NoOversell (exactly total) p 0 x.store
Reaches-IsSafe s p total w x others h start = h
Reaches-IsSafe s p total w x others h (later {x = y} f r answer step) =
    later-NoOversell s p total f y others answer step (Reaches-IsSafe s p total w y others h r)
