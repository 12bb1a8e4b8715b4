-- ===== src/Oversell/Ready.antt =====
-- The calls that end a participation act on the cached membership, so they ask that PostgreSQL backs
-- it: the right that it names is the one in the table, and the offer that it shows is in its row.
use team_10_queue_serivce.Base.{
  ℕ, ◌+◌, ◌≤◌, ◌≡◌, refl, true, ◌&&◌, List, [], ◌∷◌, Option, none, some, arith, inl, inr, ◌⊎◌, ltb,
  Bool-cases,
}
use team_10_queue_serivce.Models.Status.{offer_pending}
use team_10_queue_serivce.Models.{QueueMembership, Right, token_expired}
use team_10_queue_serivce.Redis.State.{Cache}
use team_10_queue_serivce.Redis.Scripts.{claim_set_nx}
use team_10_queue_serivce.Redis.Repo.{claim_membership, get_membership, found}
use team_10_queue_serivce.Postgres.State.{Durable}
use team_10_queue_serivce.Postgres.Rows.{
  find_right, find_membership, upsert_rows, upsert_membership,
}
use team_10_queue_serivce.World.{Store, committed}
use team_10_queue_serivce.World.Triple.{
  Ends, Triple, Leaves, Triple-call, Triple-pure, Triple-raise, Triple-if, Triple-clock,
}
use team_10_queue_serivce.Service.Config.{upsert}
use team_10_queue_serivce.Service.Leave.{refuse_expired, settled}
use team_10_queue_serivce.Oversell.{Unsaved, offer_units, offers_units, units_at, NoOversell}
use team_10_queue_serivce.Oversell.Held.{offers_units-upsert, offers_units-upsert-le}
use team_10_queue_serivce.Oversell.Calls.{SameUnits}
use team_10_queue_serivce.Oversell.Neutral.{claim_set_nx-SameUnits}

-- The row of the membership holds `n` units for an offer, or there is nothing to hold.
abbrev pub HoldsOffer : QueueMembership → ℕ → Durable → Type 0
HoldsOffer m n d =
    (n ≡ 0)
    ⊎ ((old : QueueMembership) × (find_membership m.product_id m.user_id d.memberships ≡ some old)
        × (old.status ≡ offer_pending)
        × (old.available_quantity ≡ some n))

-- PostgreSQL backs what the membership says.
pub record IsBacked (m : QueueMembership) (d : Durable) : Type 0 where
  pub backed_right :
      (t : ℕ) (r : Right)
      → m.current_token ≡ some t
      → find_right t d.rights ≡ some r
      → (r.product_id ≡ m.product_id) × (m.quantity ≤ r.quantity)
  pub backed_offer :
      (n : ℕ) → m.status ≡ offer_pending → m.available_quantity ≡ some n → HoldsOffer m n d

-- The invariant for product `p`, and a cached membership of (q, u) that PostgreSQL backs.
pub record Ready (total : Unsaved) (p q u : ℕ) (st : Store) : Type 0 where
  pub safe : NoOversell total p 0 st
  pub backed : (m : QueueMembership) → st.cache.members q u ≡ some m → IsBacked m st.durable

find_membership-product :
    (q u : ℕ) (ms : List QueueMembership) (m : QueueMembership)
    → find_membership q u ms ≡ some m
    → m.product_id ≡ q
find_membership-product q u [] m h = cc
find_membership-product q u (x ∷ ms) m h = ground (arith, find_membership-product q u ms m)

module _ (total : Unsaved) (p q u : ℕ) where
  pub Ready-NoOversell : (st : Store) → Ready total p q u st → NoOversell total p 0 st
  Ready-NoOversell st h = h.safe

  pub Leaves-claim-Ready :
      (i j owner ttl : ℕ)
      → Leaves (Ready total p q u) (claim_membership i j owner ttl) (Ready total p q u)
  unfolding claim_membership
  Leaves-claim-Ready i j owner ttl =
      Triple-call _
        (λ now st h.
          kept st (claim_set_nx i j owner now ttl st.cache).1
            (claim_set_nx-SameUnits i j owner ttl now st.cache) h)
        (λ st h. h)
    where
      kept :
          (st : Store) (c : Cache)
          → SameUnits st.cache c
          → Ready total p q u st
          → Ready total p q u (record st { cache = c })
      kept st c (es, em) h = record {
        safe = record { keyed = rw em h.safe.keyed; bounded = rw es h.safe.bounded };
        backed = rw em h.backed;
      }

  -- The membership that is read, with what backs it.
  pub get_membership-Triple-Ready :
      Triple
        (Ready total p q u)
        (get_membership q u)
        (λ m st. NoOversell total p 0 st × IsBacked m st.durable × (m.product_id ≡ q))
        (NoOversell total p 0)
  unfolding get_membership
  get_membership-Triple-Ready =
      Triple-call _ (λ now st h. by_entry (st.cache.members q u) st refl h) Ready-NoOversell
    where
      by_entry :
          (o : Option QueueMembership) (st : Store)
          → st.cache.members q u ≡ o
          → Ready total p q u st
          → Ends
              (λ m st. NoOversell total p 0 st × IsBacked m st.durable × (m.product_id ≡ q))
              (NoOversell total p 0)
              (found o)
              st
      by_entry none st e h = h.safe
      by_entry (some m) st e h = (h.safe, h.backed m e, (h.safe.keyed q u m e).0)

module _ (total : Unsaved) (p : ℕ) where
  -- The invariant, and a condition on the tables.
  abbrev pub SafeWith : (Durable → Type 0) → Store → Type 0
  SafeWith F st = NoOversell total p 0 st × F st.durable

  pub Triple-refuse_expired :
      (F : Durable → Type 0) (t : Option ℕ)
      → Triple (SafeWith F) (refuse_expired t) (λ _. SafeWith F) (NoOversell total p 0)
  Triple-refuse_expired F none = Triple-pure tt (λ st h. h)
  Triple-refuse_expired F (some t) = Triple-clock _ λ now.
      Triple-if (ltb t now) _ _ (λ e. Triple-raise token_expired (λ st h. h.0))
        (λ e. Triple-pure tt (λ st h. h))

  -- The rows after the upsert of a membership that offers nothing.
  pub released_offer :
      (now id n : ℕ) (m m' : QueueMembership) (d : Durable)
      → m'.product_id ≡ m.product_id
      → m'.user_id ≡ m.user_id
      → offer_units p m' ≡ 0
      → HoldsOffer m n d
      → offers_units p (upsert_rows now id m' d.memberships) + units_at m.product_id n p
        ≤ offers_units p d.memberships
  released_offer now id n m m' d ep eu none_offered (inl e) =
      ground (arith, offers_units-upsert-le p now id m' d.memberships)
  released_offer now id n m m' d ep eu none_offered (inr (old, is_found, es, ea)) = ground (
    arith,
    offers_units-upsert p now id m' old d.memberships (rw (ep, eu) is_found),
    find_membership-product m.product_id m.user_id d.memberships old is_found,
  )

  settled_units :
      (now at n : ℕ) (m : QueueMembership) (st : Store)
      → SafeWith (HoldsOffer m n) st
      → Ends
          (λ _. NoOversell total p (units_at m.product_id n p))
          (NoOversell total p 0)
          (committed (upsert_membership now (settled at m) st.durable) st).0
          (committed (upsert_membership now (settled at m) st.durable) st).1
  unfolding upsert_membership
  settled_units now at n m st h = elim (Bool-cases (ltb 0 m.quantity && true)) [
    | inr e ↦ rw (e, upsert_membership) h.0
    | inl e ↦
        rw (e, upsert_membership)
          (record {
            keyed = h.0.keyed;
            bounded = ground (
              arith,
              h.0.bounded,
              released_offer now st.durable.next_membership_id n m (settled at m) st.durable refl
                  refl (ground arith) h.1,
            );
          })
  ]

  -- The row of a settled membership gives up what it held.
  pub upsert-settled-Triple :
      (at n : ℕ) (m : QueueMembership)
      → Triple
          (SafeWith (HoldsOffer m n))
          (upsert (settled at m))
          (λ _. NoOversell total p (units_at m.product_id n p))
          (NoOversell total p 0)
  unfolding upsert
  upsert-settled-Triple at n m =
      Triple-call _ (λ now st h. settled_units now at n m st h) (λ st h. h.0)
