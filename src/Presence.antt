-- ===== src/Presence.antt =====
-- What a refresh of a user's presence leaves alone: backend/internal/service/presence.go.
use team_10_queue_serivce.Base.{
  not-true, ℕ, ◌+◌, ==_sound, ◌≡◌, refl, sym, ap, ◌∙◌, Bool, true, false, not, List, [], ◌∷◌,
  Option, none, some, ◌==◌, Bool-cases, inl, inr, ltb,
}
use team_10_queue_serivce.Models.Status.{is_queued}
use team_10_queue_serivce.Models.{unix, QueueMembership, presence_claim_product}
use team_10_queue_serivce.World.{Store, World, call, call_under}
use team_10_queue_serivce.World.Triple.{
  Ends, Leaves, Triple-pure, Triple-call, Triple-bind, Triple-clock, Triple-if, Leaves-collect,
  Leaves-after,
}
use team_10_queue_serivce.Redis.State.{Cache}
use team_10_queue_serivce.Redis.Scripts.{
  is_live, is_owned, remove_from_queue_script, claim_set_nx, release_membership_claim_script,
}
use team_10_queue_serivce.Redis.Timers.{refresh_from, refresh_expiry_timer_script}
use team_10_queue_serivce.Redis.Repo.{
  list_queued_products, set_user_presence_deadline, get_membership, remove_from_queue,
  refresh_expiry_timer, claim_membership, release_membership_claim, found,
}
use team_10_queue_serivce.Service.Config.{QueueService}
use team_10_queue_serivce.Service.Presence.{
  refresh_membership, refresh_product, refresh_products, refresh_user_presence,
}
use team_10_queue_serivce.Oversell.Steps.{Leaves-with_claim}

abbrev pub is_waiting : Option QueueMembership → Bool
is_waiting none = false
is_waiting (some m) = is_queued m.status

-- The tables, the stocks, the memberships, the rights and the slots are the same, and so is every queue
-- in which user `u` waits.
pub record SameHoldings (u : ℕ) (st st' : Store) : Type 0 where
  pub same_tables : st'.durable ≡ st.durable
  pub same_stocks : st'.cache.stocks ≡ st.cache.stocks
  pub same_members : st'.cache.members ≡ st.cache.members
  pub same_rights : st'.cache.rights ≡ st.cache.rights
  pub same_slots : st'.cache.slots ≡ st.cache.slots
  pub same_queue :
      (p : ℕ) → is_waiting (st.cache.members p u) ≡ true → st'.cache.queues p ≡ st.cache.queues p

-- Only timers, claims, presence and the users' index differ.
abbrev Unmoved : Cache → Cache → Type 0
Unmoved c c' =
    (c'.stocks ≡ c.stocks)
    × (c'.members ≡ c.members)
    × (c'.rights ≡ c.rights)
    × (c'.slots ≡ c.slots)
    × (c'.queues ≡ c.queues)

claim_set_nx-Unmoved :
    (p v owner now ttl : ℕ) (c : Cache) → Unmoved c (claim_set_nx p v owner now ttl c).1
unfolding claim_set_nx
claim_set_nx-Unmoved p v owner now ttl c = elim (Bool-cases (is_live now (c.claims p v))) [
  | inl e ↦ rw e (refl, refl, refl, refl, refl)
  | inr e ↦ rw e (refl, refl, refl, refl, refl)
]

release-Unmoved :
    (p v owner now : ℕ) (c : Cache) → Unmoved c (release_membership_claim_script p v owner now c)
unfolding release_membership_claim_script
release-Unmoved p v owner now c = elim (Bool-cases (is_owned owner now (c.claims p v))) [
  | inl e ↦ rw e (refl, refl, refl, refl, refl)
  | inr e ↦ rw e (refl, refl, refl, refl, refl)
]

refresh_from-Unmoved :
    (p u deadline : ℕ) (current : Option ℕ) (c : Cache)
    → Unmoved c (refresh_from p u deadline current c).1
refresh_from-Unmoved p u deadline none c = (refl, refl, refl, refl, refl)
refresh_from-Unmoved p u deadline (some t) c = elim (Bool-cases (ltb t deadline)) [
  | inl e ↦ rw e (refl, refl, refl, refl, refl)
  | inr e ↦ rw e (refl, refl, refl, refl, refl)
]

module _ (u : ℕ) (old : Store) where
  abbrev Same : Store → Type 0
  Same st = SameHoldings u old st

  SameHoldings-Unmoved :
      (st : Store) (c : Cache) → Same st → Unmoved st.cache c → Same (record st { cache = c })
  SameHoldings-Unmoved st c h e = record {
    same_tables = h.same_tables;
    same_stocks = e.0 ∙ h.same_stocks;
    same_members = e.1 ∙ h.same_members;
    same_rights = e.2 ∙ h.same_rights;
    same_slots = e.3 ∙ h.same_slots;
    same_queue = λ p k. ap (λ f. f p) e.4 ∙ h.same_queue p k;
  }

  Leaves-claim : (q v owner ttl : ℕ) → Leaves Same (claim_membership q v owner ttl) Same
  unfolding claim_membership
  Leaves-claim q v owner ttl =
      Triple-call _
        (λ now st h. SameHoldings-Unmoved st _ h (claim_set_nx-Unmoved q v owner now ttl st.cache))
        (λ st h. h)

  Leaves-release : (q v owner : ℕ) → Leaves Same (release_membership_claim q v owner) Same
  unfolding release_membership_claim
  Leaves-release q v owner =
      Triple-call _
        (λ now st h. SameHoldings-Unmoved st _ h (release-Unmoved q v owner now st.cache))
        (λ st h. h)

  Leaves-deadline : (deadline : ℕ) → Leaves Same (set_user_presence_deadline u deadline) Same
  unfolding set_user_presence_deadline
  Leaves-deadline deadline =
      Triple-call _ (λ now st h. SameHoldings-Unmoved st _ h (refl, refl, refl, refl, refl))
        (λ st h. h)

  Leaves-timer : (p deadline : ℕ) → Leaves Same (refresh_expiry_timer p u deadline) Same
  unfolding refresh_expiry_timer refresh_expiry_timer_script
  Leaves-timer p deadline =
      Triple-call _
        (λ now st h.
          SameHoldings-Unmoved st _ h (refresh_from-Unmoved p u (unix deadline) _ st.cache))
        (λ st h. h)

  -- Product `p` is not one whose queue the user waits in.
  Leaves-remove :
      (p : ℕ)
      → is_waiting (old.cache.members p u) ≡ false
      → Leaves Same (remove_from_queue p u) Same
  unfolding remove_from_queue remove_from_queue_script
  Leaves-remove p away =
      Triple-call _
        (λ now st h. record {
          same_tables = h.same_tables;
          same_stocks = h.same_stocks;
          same_members = h.same_members;
          same_rights = h.same_rights;
          same_slots = h.same_slots;
          same_queue = λ q k. elim (Bool-cases (p == q)) [
            | inl e ↦ let both = ap (λ j. is_waiting (old.cache.members j u)) (==_sound p q e) in cc
            | inr e ↦ rw e (h.same_queue q k)
          ];
        })
        (λ st h. h)

  Leaves-refresh_membership :
      (p deadline : ℕ) (o : Option QueueMembership)
      → o ≡ old.cache.members p u
      → Leaves Same (refresh_membership p u deadline (found o)) Same
  Leaves-refresh_membership p deadline none e = Leaves-remove p (ap is_waiting (sym e))
  Leaves-refresh_membership p deadline (some m) e =
      Triple-if (not (is_queued m.status)) _ _
        (λ b. Leaves-remove p (ap is_waiting (sym e) ∙ not-true _ b))
        (λ b. Triple-bind _ _ (Leaves-timer p deadline) (λ r. Triple-pure tt (λ st h. h)))

  Leaves-refresh_product : (p deadline : ℕ) → Leaves Same (refresh_product p u deadline) Same
  unfolding refresh_product get_membership call
  Leaves-refresh_product p deadline = record { from = λ w h. by_faults w.faults w h }
    where
      by_faults :
          (fs : List Bool) (w : World)
          → Same w.store
          → let read = call_under (λ now st. (found (st.cache.members p u), st)) fs w in
            let out = refresh_membership p u deadline read.0 read.1 in
            Ends (λ _. Same) Same out.0 out.1.store
      by_faults [] w h =
          (Leaves-refresh_membership p deadline (w.store.cache.members p u)
              (ap (λ f. f p u) h.same_members)).from
            w h
      by_faults (false ∷ fs) w h =
          (Leaves-refresh_membership p deadline (w.store.cache.members p u)
              (ap (λ f. f p u) h.same_members)).from
            (record w { faults = fs }) h
      by_faults (true ∷ fs) w h = h

  Leaves-refresh_products :
      (deadline : ℕ) (ps : List ℕ) → Leaves Same (refresh_products u deadline ps) Same
  unfolding refresh_products
  Leaves-refresh_products deadline [] = Triple-pure tt (λ st h. h)
  Leaves-refresh_products deadline (p ∷ ps) =
      Leaves-collect _ _ (Leaves-refresh_product p deadline) (Leaves-refresh_products deadline ps)

  Leaves-list : Leaves Same (list_queued_products u) Same
  unfolding list_queued_products
  Leaves-list = Triple-call _ (λ now st h. h) (λ st h. h)

  pub Leaves-refresh : (s : QueueService) → Leaves Same (refresh_user_presence s u) Same
  unfolding refresh_user_presence
  Leaves-refresh s =
      Leaves-with_claim presence_claim_product u _ _ (Leaves-claim presence_claim_product u)
        (Leaves-release presence_claim_product u) (λ st h. h) (Triple-pure tt (λ st h. h))
        (Triple-bind _ _ Leaves-list λ ps. Triple-clock _ λ now.
          Triple-bind _ _ (Leaves-deadline (now + s.presence_timeout))
            λ _. Leaves-refresh_products (now + s.presence_timeout) ps)

pub SameHoldings-same : (u : ℕ) (st : Store) → SameHoldings u st st
SameHoldings-same u st = record {
  same_tables = refl;
  same_stocks = refl;
  same_members = refl;
  same_rights = refl;
  same_slots = refl;
  same_queue = λ p k. refl;
}

-- Whichever remote calls fail, a refresh of a user's presence changes no table, and in the cache no
-- stock, membership, right or slot, and it leaves every queue alone in which the cached membership
-- says that the user waits.
pub refresh_user_presence-SameHoldings :
    (s : QueueService) (u : ℕ) (w : World)
    → SameHoldings u w.store (refresh_user_presence s u w).1.store
refresh_user_presence-SameHoldings s u w =
    Leaves-after _ (Leaves-refresh u w.store s) w (SameHoldings-same u w.store)
