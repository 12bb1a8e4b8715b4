-- ===== src/Oversell/Payment.antt =====
-- ProcessPayment never promises a unit twice, whichever of its calls fail.
use team_10_queue_serivce.Base.{
  ℕ, ◌≡◌, refl, ◌&&◌, Option, none, some, arith, inl, inr, Bool-cases, update,
}
use team_10_queue_serivce.Base.Int.{decrease}
use team_10_queue_serivce.Redis.State.{stock_or_zero}
use team_10_queue_serivce.Models.Status.{is_right_active}
use team_10_queue_serivce.Models.{QueueMembership, Right}
use team_10_queue_serivce.Redis.Scripts.{
  mark_purchased, mark_purchased_if_current_token_script, has_token,
}
use team_10_queue_serivce.Redis.Repo.{commit_purchase, mark_purchased_if_current_token}
use team_10_queue_serivce.World.{Store}
use team_10_queue_serivce.World.Triple.{
  Leaves, Triple-call, Triple-bind, Triple-clock, Leaves-collect,
}
use team_10_queue_serivce.Service.Config.{QueueService}
use team_10_queue_serivce.Service.Payment.{process_payment}
use team_10_queue_serivce.Oversell.{Unsaved, NoOversell}
use team_10_queue_serivce.Oversell.Steps.{use_right-Triple}
use team_10_queue_serivce.Oversell.Neutral.{Leaves-set_right, Leaves-when}
use team_10_queue_serivce.Oversell.Advance.{forget_units, Leaves-advance_queue}

module _ (total : Unsaved) (p : ℕ) where
  Leaves-commit_purchase :
      (q n : ℕ) → Leaves (NoOversell total p 0) (commit_purchase q n) (NoOversell total p 0)
  unfolding commit_purchase
  Leaves-commit_purchase q n = Triple-call _ (λ now st h. counted st h) (λ st h. h)
    where
      counted :
          (st : Store)
          → NoOversell total p 0 st
          → NoOversell total p 0 (record st {
            cache = record st.cache {
              stocks = update st.cache.stocks q (
                  some (record (stock_or_zero (st.cache.stocks q)) {
                    product_count = decrease (stock_or_zero (st.cache.stocks q)).product_count n;
                  }));
            };
          })
      counted st h = record { keyed = h.keyed; bounded = ground (arith, h.bounded) }

  marked :
      (q u token now : ℕ) (o : Option QueueMembership) (st : Store)
      → st.cache.members q u ≡ o
      → NoOversell total p 0 st
      → NoOversell total p 0 (record st { cache = (mark_purchased q u token now o st.cache).1 })
  marked q u token now none st e h = h
  marked q u token now (some m) st e h =
      elim (Bool-cases (has_token token m.current_token && is_right_active m.status)) [
        | inr f ↦ rw f h
        | inl f ↦ rw f (record {
          keyed = λ i j x k. ground (arith, h.keyed i j x, h.keyed q u m);
          bounded = h.bounded;
        })
      ]

  Leaves-mark_purchased :
      (r : Right) (now : ℕ)
      → Leaves (NoOversell total p 0) (mark_purchased_if_current_token r now) (NoOversell total p 0)
  unfolding mark_purchased_if_current_token mark_purchased_if_current_token_script
  Leaves-mark_purchased r now =
      Triple-call _
        (λ _ st h.
          marked r.product_id r.user_id r.token now (st.cache.members r.product_id r.user_id) st
            refl h)
        (λ st h. h)

  pub Leaves-process_payment :
      (s : QueueService) (token order : ℕ)
      → Leaves (NoOversell total p 0) (process_payment s token order) (NoOversell total p 0)
  unfolding process_payment
  Leaves-process_payment s token order = Triple-clock _ λ now.
      Triple-bind _ _ (use_right-Triple total p token order now) λ (r, transitioned).
        Leaves-collect _ _
          (Leaves-when total p transitioned _ (Leaves-commit_purchase r.product_id r.quantity))
          (Leaves-collect _ _ (Leaves-set_right total p r) (
            Leaves-collect _ _
              (Triple-bind _ _ (Leaves-mark_purchased r now) (λ _. forget_units total p tt))
              (Leaves-advance_queue total p s r.product_id)))
