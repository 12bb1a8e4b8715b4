-- ===== src/Recovery/Rebuilt.antt =====
-- What rebuild_cache writes as the stock of a product.
use team_10_queue_serivce.Base.{
  ==_sound, ℕ, ◌-◌, ◌≡◌, refl, sym, ap, ◌∙◌, true, false, List, [], ◌∷◌, Option, none, some, arith,
  inl, inr, ◌==◌, Bool-cases,
}
use team_10_queue_serivce.Base.Int.{pos}
use team_10_queue_serivce.Models.{ProductStock, QueueMembership, Right}
use team_10_queue_serivce.Postgres.Rows.{find_stock}
use team_10_queue_serivce.Redis.State.{Cache, Stock}
use team_10_queue_serivce.Redis.Scripts.{restore_product_state_script}
use team_10_queue_serivce.Redis.Repo.{
  reset_expiry_timers, reset_queue_slots, restore_product_state, set_membership, set_right,
  add_to_expiry_timer, index_queue,
}
use team_10_queue_serivce.World.{Store, M, change_cache, ◌>>◌}
use team_10_queue_serivce.World.Triple.{
  Triple, Triple-pure, Triple-bind, Triple-call, Triple-always, Always,
}
use team_10_queue_serivce.Service.Recovery.Rights.{RecoveryProductState, RecoveryTimer, Products}
use team_10_queue_serivce.Service.Recovery.{
  RecoveryState, restore_known, restore_products, cache_memberships, cache_rights, add_timers,
  rebuild_cache,
}

abbrev pub AreDistinct : List ProductStock → Type 0
AreDistinct [] = Unit
AreDistinct (s ∷ ss) = (find_stock s.product_id ss ≡ none) × AreDistinct ss

-- What recovery writes for a row, with `x` reserved.
abbrev pub restored : ProductStock → RecoveryProductState → Option Stock
restored row x = some (record {
  product_count = pos row.product_count;
  available_units = row.product_count - x.reserved;
})

row_of :
    (p : ℕ) (s : ProductStock) (ss : List ProductStock) (row : ProductStock)
    → find_stock p (s ∷ ss) ≡ some row
    → (s.product_id == p) ≡ true
    → row ≡ s
row_of p s ss row f h = let found = rw h at f in cc

index_queue-stocks : (q : ℕ) (us : List ℕ) (c : Cache) → (index_queue q us c).stocks ≡ c.stocks
index_queue-stocks q [] c = refl
index_queue-stocks q (u ∷ us) c = index_queue-stocks q us _

-- The stock of product `p` is what it was.
module _ (p : ℕ) (stock : Option Stock) where
  abbrev Has : Store → Type 0
  Has st = st.cache.stocks p ≡ stock

  -- The steps of a rebuild that write no stock keep it, or fail.
  abbrev Keeps : {A : Type 0} → M A → Type 0
  Keeps m = Triple Has m (λ _. Has) Always

  Keeps-reset_expiry_timers : Keeps reset_expiry_timers
  unfolding reset_expiry_timers
  Keeps-reset_expiry_timers = Triple-call _ (λ now st h. h) (λ st h. tt)

  Keeps-reset_queue_slots : Keeps reset_queue_slots
  unfolding reset_queue_slots
  Keeps-reset_queue_slots = Triple-call _ (λ now st h. h) (λ st h. tt)

  Keeps-set_membership : (m : QueueMembership) → Keeps (set_membership m)
  unfolding set_membership
  Keeps-set_membership m = Triple-call _ (λ now st h. h) (λ st h. tt)

  Keeps-set_right : (r : Right) → Keeps (set_right r)
  unfolding set_right
  Keeps-set_right r = Triple-call _ (λ now st h. h) (λ st h. tt)

  Keeps-add_to_expiry_timer :
      (t : RecoveryTimer) → Keeps (add_to_expiry_timer t.product_id t.user_id t.deadline)
  unfolding add_to_expiry_timer
  Keeps-add_to_expiry_timer t = Triple-call _ (λ now st h. h) (λ st h. tt)

  Keeps-cache_memberships : (ms : List QueueMembership) → Keeps (cache_memberships ms)
  unfolding cache_memberships
  Keeps-cache_memberships [] = Triple-pure tt (λ st h. h)
  Keeps-cache_memberships (m ∷ ms) =
      Triple-bind _ (λ _. cache_memberships ms) (Keeps-set_membership m)
        (λ _. Keeps-cache_memberships ms)

  Keeps-cache_rights : (rs : List Right) → Keeps (cache_rights rs)
  unfolding cache_rights
  Keeps-cache_rights [] = Triple-pure tt (λ st h. h)
  Keeps-cache_rights (r ∷ rs) =
      Triple-bind _ (λ _. cache_rights rs) (Keeps-set_right r) (λ _. Keeps-cache_rights rs)

  Keeps-add_timers : (ts : List RecoveryTimer) → Keeps (add_timers ts)
  unfolding add_timers
  Keeps-add_timers [] = Triple-pure tt (λ st h. h)
  Keeps-add_timers (t ∷ ts) =
      Triple-bind _ (λ _. add_timers ts) (Keeps-add_to_expiry_timer t) (λ _. Keeps-add_timers ts)

  Keeps-restore_product_state :
      (q n k : ℕ) (users : List ℕ) → (q == p) ≡ false → Keeps (restore_product_state q n k users)
  unfolding restore_product_state restore_product_state_script
  Keeps-restore_product_state q n k users e =
      Triple-bind _ (λ _. change_cache (index_queue q users))
        (Triple-call _ (λ now st h. rw e h) (λ st h. tt))
        (λ _.
          Triple-call _ (λ now st h. ap (λ f. f p) (index_queue-stocks q users st.cache) ∙ h)
            (λ st h. tt))

  Set-restore_product_state :
      (q n k : ℕ) (users : List ℕ)
      → (q == p) ≡ true
      → stock ≡ some (record { product_count = pos n; available_units = k })
      → Triple Always (restore_product_state q n k users) (λ _. Has) Always
  unfolding restore_product_state restore_product_state_script
  Set-restore_product_state q n k users e same =
      Triple-bind _ (λ _. change_cache (index_queue q users))
        (Triple-call _ (λ now st h. rw e (sym same)) (λ st h. tt))
        (λ _.
          Triple-call _ (λ now st h. ap (λ f. f p) (index_queue-stocks q users st.cache) ∙ h)
            (λ st h. tt))

  Keeps-restore_known :
      (s : ProductStock) (o : Option RecoveryProductState)
      → (s.product_id == p) ≡ false
      → Keeps (restore_known s o)
  Keeps-restore_known s none e = Triple-pure tt (λ st h. h)
  Keeps-restore_known s (some x) e =
      Keeps-restore_product_state s.product_id s.product_count (s.product_count - x.reserved)
        x.queued_users e

  Keeps-restore_products :
      (products : Products) (stocks : List ProductStock)
      → find_stock p stocks ≡ none
      → Keeps (restore_products products stocks)
  unfolding restore_products
  Keeps-restore_products products [] e = Triple-pure tt (λ st h. h)
  Keeps-restore_products products (s ∷ ss) e = elim (Bool-cases (s.product_id == p)) [
    | inl h ↦ let gone = rw h at e in cc
    | inr h ↦
        Triple-bind _ (λ _. restore_products products ss)
          (Keeps-restore_known s (products s.product_id) h)
          (λ _. Keeps-restore_products products ss (ground (arith, e, h)))
  ]

  Set-restore_products :
      (products : Products) (stocks : List ProductStock) (row : ProductStock)
      (x : RecoveryProductState)
      → AreDistinct stocks
      → find_stock p stocks ≡ some row
      → products p ≡ some x
      → stock ≡ restored row x
      → Triple Always (restore_products products stocks) (λ _. Has) Always
  unfolding restore_products
  Set-restore_products products [] row x d f e same = cc
  Set-restore_products products (s ∷ ss) row x d f e same = elim (Bool-cases (s.product_id == p)) [
    | inl h ↦
        Triple-bind _ (λ _. restore_products products ss)
          (rw (ap products (==_sound s.product_id p h) ∙ e) (
            Set-restore_product_state s.product_id s.product_count (s.product_count - x.reserved)
              x.queued_users h (same ∙ ap (λ r. restored r x) (row_of p s ss row f h))))
          (λ _.
            Keeps-restore_products products ss
              (ap (λ j. find_stock j ss) (sym (==_sound s.product_id p h)) ∙ d.0))
    | inr h ↦
        Triple-bind _ (λ _. restore_products products ss) (Triple-always _)
          (λ _. Set-restore_products products ss row x d.1 (ground (arith, f, h)) e same)
  ]

  pub Set-rebuild_cache :
      (b : RecoveryState) (stocks : List ProductStock) (row : ProductStock)
      (x : RecoveryProductState)
      → AreDistinct stocks
      → find_stock p stocks ≡ some row
      → b.products p ≡ some x
      → stock ≡ restored row x
      → Triple Always (rebuild_cache stocks b) (λ _. Has) Always
  unfolding rebuild_cache
  Set-rebuild_cache b stocks row x d f e same =
      Triple-bind _
        (λ _. do
          reset_queue_slots
          restore_products b.products stocks
          cache_memberships b.memberships
          cache_rights b.rights
          add_timers b.timers)
        (Triple-always _)
        λ _.
          Triple-bind _
            (λ _. do
              restore_products b.products stocks
              cache_memberships b.memberships
              cache_rights b.rights
              add_timers b.timers)
            (Triple-always _)
            λ _.
              Triple-bind _
                (λ _. do
                  cache_memberships b.memberships
                  cache_rights b.rights
                  add_timers b.timers)
                (Set-restore_products b.products stocks row x d f e same)
                λ _.
                  Triple-bind _ (λ _. do cache_rights b.rights; add_timers b.timers)
                    (Keeps-cache_memberships b.memberships)
                    λ _.
                      Triple-bind _ (λ _. add_timers b.timers) (Keeps-cache_rights b.rights)
                        λ _. Keeps-add_timers b.timers
