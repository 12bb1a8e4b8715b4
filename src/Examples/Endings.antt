-- ===== src/Examples/Endings.antt =====
-- Rights that have ended, a checkout, and a decrement over a bad network.
use team_10_queue_serivce.Base.{
  ℕ, ◌-◌, ◌*◌, ◌≡◌, refl, true, List, [], ◌∷◌, some, arith, ◌==◌, if◌then◌else◌,
}
use team_10_queue_serivce.Base.Int.{pos}
use team_10_queue_serivce.Models.Status.{used}
use team_10_queue_serivce.Models.{Right, second}
use team_10_queue_serivce.Models.Result.{ok}
use team_10_queue_serivce.World.{World, call, time_now, new_uuid}
use team_10_queue_serivce.Redis.Scripts.{
  pop_and_allocate_script, mark_purchased_if_current_token_script,
}
use team_10_queue_serivce.Redis.Repo.{
  get_right, set_right, commit_purchase, mark_purchased_if_current_token, pop_and_allocate,
}
use team_10_queue_serivce.Postgres.Rows.{get_right_by_token}
use team_10_queue_serivce.Postgres.Rights.{use_right}
use team_10_queue_serivce.Service.Config.{use_right_tx}
use team_10_queue_serivce.Service.Advance.{advance_queue, advance_loop}
use team_10_queue_serivce.Service.Payment.{
  process_payment, validate_right_for_checkout, get_active_right, fetch_right,
}
use team_10_queue_serivce.Transport.Handlers.{check_right_for_checkout, right_events}
use team_10_queue_serivce.Lasting.Traffic.{
  Event, joins, declines, reports, beats, expires, delivers, restarts, handle_all,
}
use team_10_queue_serivce.Lasting.Ended.{IsEnded, handle_all-IsEnded}
use team_10_queue_serivce.Avito.{new_stock, count_in}
use team_10_queue_serivce.Avito.Client.{Client, new_client}
use team_10_queue_serivce.Avito.Link.{
  Weather, clear, request_lost, response_lost, decrement_until, decrement_until-once,
}
use team_10_queue_serivce.Avito.Checkout.{
  Tokens, over, call_validate_right, report_payment, pay_handler,
}
use team_10_queue_serivce.Avito.Paid.{HasPaid, pay_handler-HasPaid}
use team_10_queue_serivce.Examples.Shop.{service, shop, shop_tables, right_of_5}

-- A day of the shop, with a restart.
abbrev day : List Event
day =
    joins 7 9 (some (pos 2))
    ∷ declines 7 6
    ∷ reports 100 (some (true, 901))
    ∷ beats 9
    ∷ expires
    ∷ restarts
    ∷ delivers
    ∷ []

abbrev used_5 : Right
used_5 = record right_of_5 { status = used; order_id = some 900; used_at = some (35 * second) }

abbrev after_sale : World
after_sale = record shop {
  store = record shop.store { durable = record shop_tables { rights = used_5 ∷ [] } };
}

handle_all-IsEnded_example :
    IsEnded 100 used_5 (handle_all service day after_sale).store.durable.rights
handle_all-IsEnded_example =
    handle_all-IsEnded service 100 used_5 (λ n st h. h) day after_sale (refl, refl)

abbrev tokens : Tokens
tokens = record { ours = 55; theirs = 55 }

abbrev order : ℕ
order = 900

-- The page says that the order has been paid.
bought :
    (pay_handler service tokens clear clear order (some (100, 7)) shop).0 ≡ ok (200, some order)
unfolding pay_handler call_validate_right report_payment over check_right_for_checkout right_events
    validate_right_for_checkout get_active_right fetch_right get_right call time_now new_uuid
    process_payment use_right_tx use_right get_right_by_token commit_purchase set_right
    mark_purchased_if_current_token mark_purchased_if_current_token_script advance_queue
    advance_loop pop_and_allocate pop_and_allocate_script
bought = refl

pay_handler-HasPaid_example :
    let w = (pay_handler service tokens clear clear order (some (100, 7)) shop).1 in
    (some order ≡ some order) × HasPaid 100 order (handle_all service day w).store.durable.rights
pay_handler-HasPaid_example =
    pay_handler-HasPaid service tokens clear clear order 100 7 shop (some order) bought
      (λ r n st h. h) day

abbrev client : Client
client = new_client 55 (pos 0)

-- The first request is lost, and then a response.
abbrev weathers : List Weather
weathers = request_lost ∷ response_lost ∷ clear ∷ []

agreed : client.token ≡ 55
unfolding new_client
agreed = refl

decrement_until-once_example :
    let out = decrement_until 55 client 30 7 2 weathers (new_stock 5) in
    (out.0 ≡ true)
    × ((q : ℕ) → count_in out.1 q ≡ count_in (new_stock 5) q - (if 7 == q then 2 else 0))
decrement_until-once_example =
    decrement_until-once 55 30 7 2 client (new_stock 5) weathers agreed (λ e. cc) (omega arith) refl
      refl
