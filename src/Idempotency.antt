-- ===== src/Idempotency.antt =====
-- A repeated JoinQueue in backend/internal/service/queue_service.go.
use team_10_queue_serivce.Base.{
  ℕ, suc, ◌≡◌, ◌⊎◌, inl, inr, refl, sym, ap, ◌∙◌, subst, [], Option, none, some,
}
use team_10_queue_serivce.Base.Int.{pos}
use team_10_queue_serivce.Models.Status.{queued, offer_pending, right_active}
use team_10_queue_serivce.Models.{QueueMembership, Right}
use team_10_queue_serivce.Models.Result.{Result, ok, err}
use team_10_queue_serivce.World.{Store, World, M, pure, call, call_under, ◌>>=◌}
use team_10_queue_serivce.Redis.Repo.{get_membership, get_right, found}
use team_10_queue_serivce.Service.Config.{QueueService, with_claim, join_await_attempts}
use team_10_queue_serivce.Service.Join.{
  Joined, check_idempotency, answer_found, answer_existing, unless_joined, join_positive,
  join_queue, join_claimed, await_concurrent_join,
}

bind_ok :
    {A B : Type 0} {w w' : World} {a : A} (m : M A) (f : A → M B)
    → m w ≡ (ok a, w')
    → (m >>= f) w ≡ f a w'
bind_ok {B = B} m f h =
    ap (λ x. elim x.0 as (λ _. Result B × World) [ ok a ↦ f a x.1 | err e ↦ (err e, x.1) ]) h

module _ (w : World) (quiet : w.faults ≡ []) where
  -- A call that does not fail.
  call_quiet :
      {A : Type 0} (f : ℕ → Store → Result A × Store)
      → call f w ≡ ((f w.clock w.store).0, record w { store = (f w.clock w.store).1 })
  unfolding call
  call_quiet f =
      subst
        (λ fs.
          call_under f fs w ≡ ((f w.clock w.store).0, record w { store = (f w.clock w.store).1 }))
        (sym quiet) refl

  get_right_quiet :
      (t : ℕ) (r : Right) → w.store.cache.rights t ≡ some r → get_right t w ≡ (ok r, w)
  unfolding get_right
  get_right_quiet t r e =
      call_quiet (λ now s. (found (s.cache.rights t), s)) ∙ ap (λ o. (found o, w)) e

  module _ (s : QueueService) (p u n : ℕ) (m : QueueMembership)
      (cached : w.store.cache.members p u ≡ some m) where
    get_membership_quiet : get_membership p u w ≡ (ok m, w)
    unfolding get_membership
    get_membership_quiet =
        call_quiet (λ now s. (found (s.cache.members p u), s)) ∙ ap (λ o. (found o, w)) cached

    check_quiet : check_idempotency p u w ≡ answer_existing m.status m.current_token m w
    unfolding check_idempotency
    check_quiet = ap (λ x. answer_found x.0 x.1) get_membership_quiet

    joined :
        (j : Joined)
        → answer_existing m.status m.current_token m w ≡ (ok (some j), w)
        → join_queue s p u (pos (suc n)) w ≡ (ok j, w)
    unfolding join_queue join_positive
    joined j e = bind_ok (check_idempotency p u) behind (check_quiet ∙ e)
      where
        behind : Option Joined → M Joined
        behind existing = unless_joined existing (
            with_claim p u (await_concurrent_join join_await_attempts s p u)
              (join_claimed s p u (suc n)))

    -- A user who waits for a product or is offered units of it and joins again, for any quantity, gets
    -- the same membership and no right, and nothing changes, if no remote call fails.
    pub join_queue-waiting :
        (m.status ≡ queued) ⊎ (m.status ≡ offer_pending)
        → join_queue s p u (pos (suc n)) w ≡ (ok (record { membership = m; right = none }), w)
    join_queue-waiting (inl e) = joined _ (ap (λ st. answer_existing st m.current_token m w) e)
    join_queue-waiting (inr e) = joined _ (ap (λ st. answer_existing st m.current_token m w) e)

    -- A user who holds a cached right to buy a product and joins again, for any quantity, gets the same
    -- membership and that right, and nothing changes, if no remote call fails.
    pub join_queue-holding :
        (t : ℕ) (r : Right)
        → m.status ≡ right_active
        → m.current_token ≡ some t
        → w.store.cache.rights t ≡ some r
        → join_queue s p u (pos (suc n)) w ≡ (ok (record { membership = m; right = some r }), w)
    join_queue-holding t r e et er = joined _ (
        ap (λ st. answer_existing st m.current_token m w) e
        ∙ ap (λ o. answer_existing right_active o m w) et
        ∙ bind_ok (get_right t) shown (get_right_quiet t r er))
      where
        shown : Right → M (Option Joined)
        shown r = pure (some (record { membership = m; right = some r }))
