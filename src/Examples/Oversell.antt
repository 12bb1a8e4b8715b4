-- ===== src/Examples/Oversell.antt =====
-- The theorems on units, applied to the shop.
use mathlib.Core.Option.{some-injective}
use team_10_queue_serivce.Base.{
  ℕ, ◌*◌, ◌≡◌, inl, refl, subst, Bool, true, false, List, [], ◌∷◌, none, some, arith, inr,
}
use team_10_queue_serivce.Base.Int.{pos}
use team_10_queue_serivce.Models.{second}
use team_10_queue_serivce.World.{World}
use team_10_queue_serivce.Service.Advance.{advance_queue}
use team_10_queue_serivce.Service.Join.{join_queue}
use team_10_queue_serivce.Service.Payment.{process_payment}
use team_10_queue_serivce.Service.Leave.{leave_queue, decline_offer}
use team_10_queue_serivce.Service.Offer.{accept_offer}
use team_10_queue_serivce.Service.Expiration.{handle_expired_key}
use team_10_queue_serivce.Oversell.{exactly, NoOversell}
use team_10_queue_serivce.Oversell.Ready.{IsBacked}
use team_10_queue_serivce.Oversell.Theorems.{
  IsSafe, IsReady, join_queue-IsSafe, advance_queue-IsSafe, process_payment-IsSafe,
  leave_queue-IsSafe, decline_offer-IsSafe, accept_offer-IsSafe, handle_expired_key-IsSafe,
}
use team_10_queue_serivce.Transport.Traffic.{joins, reports, serve_one}
use team_10_queue_serivce.Transport.Handlers.{leave}
use team_10_queue_serivce.Transport.Reached.{
  IsUnknown, answering, Reaches, start, later, serves, leaves, Reaches-IsSafe,
}
use team_10_queue_serivce.Examples.Shop.{
  service, member_5, member_6, shop_tables, shop_with, shop, opening, timer_of_6,
}

opening-IsSafe : IsSafe service 7 opening
opening-IsSafe = record { keyed = λ p u m e. cc; bounded = omega arith }

shop-IsSafe : (faults : List Bool) → IsSafe service 7 (shop_with faults)
shop-IsSafe faults = record { keyed = λ p u m e. ground arith; bounded = omega arith }

member_5-IsBacked : IsBacked member_5 shop_tables
member_5-IsBacked = record {
  backed_right = λ t r et er. ground arith;
  backed_offer = λ n es ea. cc;
}

member_6-IsBacked : IsBacked member_6 shop_tables
member_6-IsBacked = record {
  backed_right = λ t r et er. cc;
  backed_offer = λ n es ea. inr (record member_6 { id = 2 }, refl, refl, ea);
}

shop-IsReady_5 : IsReady service 7 7 5 shop
shop-IsReady_5 = record {
  safe = shop-IsSafe [];
  backed =
      λ m e. subst (λ x. IsBacked x shop_tables) (some-injective member_5 m e) member_5-IsBacked;
}

shop-IsReady_6 : (faults : List Bool) → IsReady service 7 7 6 (shop_with faults)
shop-IsReady_6 faults = record {
  safe = shop-IsSafe faults;
  backed =
      λ m e. subst (λ x. IsBacked x shop_tables) (some-injective member_6 m e) member_6-IsBacked;
}

join_queue-IsSafe_example : IsSafe service 7 (join_queue service 7 9 (pos 2) opening).1
join_queue-IsSafe_example =
    join_queue-IsSafe service 7 7 9 (pos 2) opening (λ n st h. h) opening-IsSafe

-- User 6 leaves while AvitoBackend answers 9, two users join, one with a body that cannot be decoded,
-- and one pays.
abbrev later_shop : World
later_shop = serve_one service (reports 100 (some (true, 900))) (
    serve_one service (joins 7 8 none) (
      serve_one service (joins 7 9 (some (pos 2))) (leave (answering service (λ q. 9)) 7 6 shop).1))

shop-known : IsUnknown 7 shop.store → ◌≡◌ {A = ℕ} 9 3
shop-known (inl e) = cc
shop-known (inr e) = cc

later_shop-Reaches : Reaches service 7 3 shop later_shop
later_shop-Reaches =
    let initial = service.initial_stock in
    later initial
      (later initial
        (later initial (later (λ q. 9) start shop-known (leaves 7 6 (shop-IsReady_6 []).backed))
          (λ u. refl) (serves (joins 7 9 (some (pos 2)))))
        (λ u. refl) (serves (joins 7 8 none)))
      (λ u. refl) (serves (reports 100 (some (true, 900))))

Reaches-IsSafe_example : NoOversell (exactly 3) 7 0 later_shop.store
Reaches-IsSafe_example =
    Reaches-IsSafe service 7 3 shop later_shop (λ unsaved around n st h. h) (shop-IsSafe [])
      later_shop-Reaches

advance_queue-IsSafe_example :
    IsSafe service 7 (advance_queue service 7 (shop_with (false ∷ true ∷ []))).1
advance_queue-IsSafe_example =
    advance_queue-IsSafe service 7 7 (shop_with (false ∷ true ∷ []))
      (shop-IsSafe (false ∷ true ∷ []))

process_payment-IsSafe_example : IsSafe service 7 (process_payment service 100 900 shop).1
process_payment-IsSafe_example = process_payment-IsSafe service 7 100 900 shop (shop-IsSafe [])

leave_queue-IsSafe_example : IsSafe service 7 (leave_queue service 7 5 shop).1
leave_queue-IsSafe_example = leave_queue-IsSafe service 7 7 5 shop shop-IsReady_5

decline_offer-IsSafe_example : IsSafe service 7 (decline_offer service 7 6 shop).1
decline_offer-IsSafe_example = decline_offer-IsSafe service 7 7 6 shop (shop-IsReady_6 [])

accept_offer-IsSafe_example : IsSafe service 7 (accept_offer service 7 6 (pos 1) shop).1
accept_offer-IsSafe_example =
    accept_offer-IsSafe service 7 7 6 (pos 1) shop (λ n st h. h) (shop-IsReady_6 [])

handle_expired_key-IsSafe_example :
    IsSafe service 7 (handle_expired_key service timer_of_6 (90 * second) shop).1
handle_expired_key-IsSafe_example =
    handle_expired_key-IsSafe service 7 timer_of_6 (90 * second) shop (shop-IsReady_6 [])
