-- ===== src/Oversell/Calls.antt =====
-- What the other calls of Redis and PostgreSQL do to the units of a product, failed calls included.
use team_10_queue_serivce.Base.{
  ℕ, ◌≤◌, ◌≡◌, refl, ◌&&◌, Option, none, some, arith, inl, inr, Bool-cases, Option-cases, ltb,
}
use team_10_queue_serivce.Models.{ProductStock, QueueMembership}
use team_10_queue_serivce.Models.Result.{Result, ok, err}
use team_10_queue_serivce.Redis.State.{Cache}
use team_10_queue_serivce.Redis.Scripts.{init_stock_script}
use team_10_queue_serivce.Redis.Repo.{
  init_stock, set_membership, get_membership, put_membership, found,
}
use team_10_queue_serivce.Postgres.Rows.{
  find_stock, save_initial_stock, upsert_membership, references_right,
}
use team_10_queue_serivce.Service.Config.{save_stock, upsert}
use team_10_queue_serivce.Oversell.Held.{find_stock-append, offers_units-upsert-le}
use team_10_queue_serivce.World.{committed, Store, M, on_cache, read_cache}
use team_10_queue_serivce.World.Triple.{Ends, Triple, Leaves, Triple-call}
use team_10_queue_serivce.Oversell.{Unsaved, IsWithin, offer_units, NoOversell}

-- A change of Redis that touches neither counters nor memberships.
abbrev pub SameUnits : Cache → Cache → Type 0
SameUnits c c' = (c'.stocks ≡ c.stocks) × (c'.members ≡ c.members)

module _ (total : Unsaved) (p : ℕ) where
  keep_units :
      {n : ℕ} (st : Store) (c : Cache)
      → SameUnits st.cache c
      → NoOversell total p n st
      → NoOversell total p n (record st { cache = c })
  keep_units st c (es, em) h = record { keyed = rw em h.keyed; bounded = rw es h.bounded }

  -- Units that are under way may be forgotten, but not invented.
  pub NoOversell-mono :
      {m n : ℕ} (st : Store) → m ≤ n → NoOversell total p n st → NoOversell total p m st
  NoOversell-mono st le h = record { keyed = h.keyed; bounded = omega arith }

  pub Leaves-neutral :
      {n : ℕ} {A : Type 0} (f : ℕ → Cache → A × Cache)
      → ((now : ℕ) (c : Cache) → SameUnits c (f now c).1)
      → Leaves (NoOversell total p n) (on_cache f) (NoOversell total p n)
  Leaves-neutral f same =
      Triple-call _ (λ now st h. keep_units st (f now st.cache).1 (same now st.cache) h) (λ st h. h)

  pub Leaves-read :
      {n : ℕ} {A : Type 0} (f : Cache → Result A)
      → Leaves (NoOversell total p n) (read_cache f) (NoOversell total p n)
  Leaves-read f = Triple-call _ (λ now st h. by_result (f st.cache) st h) (λ st h. h)
    where
      by_result :
          {n : ℕ} {A : Type 0} (r : Result A) (st : Store)
          → NoOversell total p n st
          → Ends (λ _. NoOversell total p n) (NoOversell total p n) r st
      by_result (ok a) st h = h
      by_result (err e) st h = h

  initial_units :
      (q t : ℕ) (st : Store)
      → (q ≡ p → IsWithin total t)
      → NoOversell total p 0 st
      → NoOversell total p 0 (record st { cache = init_stock_script q t st.cache })
  unfolding init_stock_script
  initial_units q t st same h = elim (Option-cases (st.cache.stocks q)) [
    | inl e ↦
        rw (e, init_stock_script)
          (record { keyed = h.keyed; bounded = ground (arith, h.bounded, e, same) })
    | inr (old, e) ↦ rw (e, init_stock_script) h
  ]

  -- The first entry moves what AvitoBackend says into the pool; later ones change nothing.
  pub Leaves-init_stock :
      (q t : ℕ)
      → (q ≡ p → IsWithin total t)
      → Leaves (NoOversell total p 0) (init_stock q t) (NoOversell total p 0)
  unfolding init_stock
  Leaves-init_stock q t same = Triple-call _ (λ now st h. initial_units q t st same h) (λ st h. h)

  saved_units :
      {n : ℕ} (stock : ProductStock) (st : Store)
      → (stock.product_id ≡ p → IsWithin total stock.product_count)
      → NoOversell total p n st
      → NoOversell total p n (record st { durable = save_initial_stock stock st.durable })
  unfolding save_initial_stock
  saved_units stock st same h =
      elim (Option-cases (find_stock stock.product_id st.durable.stocks)) [
        | inl e ↦
            rw (e, save_initial_stock)
              (record {
                keyed = h.keyed;
                bounded =
                    ground
                      (arith, h.bounded, e, same, find_stock-append p st.durable.stocks stock e);
              })
        | inr (old, e) ↦ rw (e, save_initial_stock) h
      ]

  pub Leaves-save_stock :
      {n : ℕ} (stock : ProductStock)
      → (stock.product_id ≡ p → IsWithin total stock.product_count)
      → Leaves (NoOversell total p n) (save_stock stock) (NoOversell total p n)
  unfolding save_stock
  Leaves-save_stock stock same = Triple-call _ (λ now st h. saved_units stock st same h) (λ st h. h)

  -- The cached membership changes, under its own key.
  pub Leaves-set_membership :
      {n : ℕ} (m : QueueMembership)
      → Leaves (NoOversell total p n) (set_membership m) (NoOversell total p n)
  unfolding set_membership
  Leaves-set_membership m = Triple-call _ (λ now st h. written st h) (λ st h. h)
    where
      written :
          {n : ℕ} (st : Store)
          → NoOversell total p n st
          → NoOversell total p n (record st { cache = put_membership m st.cache })
      written st h = record {
        keyed = λ q u x e. ground (arith, h.keyed q u x);
        bounded = h.bounded;
      }

  -- A membership that is read belongs to its key.
  pub get_membership-Triple :
      {n : ℕ} (q u : ℕ)
      → Triple
          (NoOversell total p n)
          (get_membership q u)
          (λ m st. NoOversell total p n st × (m.product_id ≡ q) × (m.user_id ≡ u))
          (NoOversell total p n)
  unfolding get_membership
  get_membership-Triple q u =
      Triple-call _ (λ now st h. by_entry (st.cache.members q u) st refl h) (λ st h. h)
    where
      by_entry :
          {n : ℕ} (o : Option QueueMembership) (st : Store)
          → st.cache.members q u ≡ o
          → NoOversell total p n st
          → Ends
              (λ m st. NoOversell total p n st × (m.product_id ≡ q) × (m.user_id ≡ u))
              (NoOversell total p n)
              (found o)
              st
      by_entry none st e h = h
      by_entry (some m) st e h = let (ep, eu) = h.keyed q u m e in (h, ep, eu)

  -- A row that is written holds what was under way for it.
  upserted_units :
      (n now : ℕ) (m : QueueMembership) (st : Store)
      → offer_units p m ≤ n
      → NoOversell total p n st
      → Ends
          (λ _. NoOversell total p 0)
          (NoOversell total p n)
          (committed (upsert_membership now m st.durable) st).0
          (committed (upsert_membership now m st.durable) st).1
  unfolding upsert_membership
  upserted_units n now m st le h =
      elim (Bool-cases (ltb 0 m.quantity && references_right m.current_token st.durable.rights)) [
        | inl e ↦
            rw (e, upsert_membership)
              (record {
                keyed = h.keyed;
                bounded = omega (
                  arith,
                  h.bounded,
                  offers_units-upsert-le p now st.durable.next_membership_id m
                      st.durable.memberships,
                );
              })
        | inr e ↦ rw (e, upsert_membership) h
      ]

  pub upsert-Triple :
      (n : ℕ) (m : QueueMembership)
      → offer_units p m ≤ n
      → Triple (NoOversell total p n) (upsert m) (λ _. NoOversell total p 0) (NoOversell total p n)
  unfolding upsert
  upsert-Triple n m le = Triple-call _ (λ now st h. upserted_units n now m st le h) (λ st h. h)

  pub given_key :
      {A : Type 0} {n : ℕ} {R : A → Store → Type 0} {E : Store → Type 0} (q u : ℕ)
      (m : QueueMembership) (act : M A)
      → (m.product_id ≡ q → m.user_id ≡ u → Triple (NoOversell total p n) act R E)
      → Triple (λ st. NoOversell total p n st × (m.product_id ≡ q) × (m.user_id ≡ u)) act R E
  given_key q u m act k = record { from = λ w h. (k h.1 h.2).from w h.0 }
