-- ===== src/Avito.antt =====
-- cmd/avitomock/main.go: the stand-in for AvitoBackend, which owns the physical stock. A decrement or a
-- new count that is below 0 is refused before it reaches the stock, so a count is never below 0.
pub mod ExactlyOnce
pub mod Client
pub mod Link
pub mod Checkout
pub mod Paid
use team_10_queue_serivce.Base.{
  ℕ, ◌-◌, Bool, true, false, not, ◌&&◌, ◌||◌, Option, none, some, ◌==◌, if◌then◌else◌, update,
  get_or,
}
use team_10_queue_serivce.Base.Int.{ℤ, pos, negsuc}
use team_10_queue_serivce.Models.{empty_id}

pub record StockDecrementOperation : Type 0 where
  pub product_id : ℕ
  pub quantity : ℕ
  pub left : ℕ

-- The mutex makes each method one step.
pub record AvitoStock : Type 0 where
  pub counts : ℕ → Option ℕ
  pub processed : ℕ → Option StockDecrementOperation
  pub default_stock : ℕ

abbrev pub new_stock : ℕ → AvitoStock
new_stock default_stock = record {
  counts = λ p. none;
  processed = λ k. none;
  default_stock = default_stock;
}

abbrev pub count_in : AvitoStock → ℕ → ℕ
count_in s p = get_or s.default_stock (s.counts p)

-- stock.get, which writes the count that it answers.
unfoldable pub get_count : ℕ → AvitoStock → ℕ × AvitoStock
get_count p s = (count_in s p, record s { counts = update s.counts p (some (count_in s p)) })

pub record Taken : Type 0 where
  pub left : ℕ
  pub replay : Bool
  pub conflict : Bool

-- `-` stops at 0, as the clamp does.
abbrev pub take_new : ℕ → ℕ → ℕ → AvitoStock → Taken × AvitoStock
take_new p quantity key s =
    let left = count_in s p - quantity in
    (
      record { left = left; replay = false; conflict = false },
      record s {
        counts = update s.counts p (some left);
        processed =
            update s.processed key
              (some (record { product_id = p; quantity = quantity; left = left }));
      },
    )

abbrev pub take_again : ℕ → ℕ → StockDecrementOperation → Taken
take_again p quantity previous =
    if not (previous.product_id == p) || not (previous.quantity == quantity)
    then record { left = previous.left; replay = false; conflict = true }
    else record { left = previous.left; replay = true; conflict = false }

-- stock.take
unfoldable pub take_stock : ℕ → ℕ → ℕ → AvitoStock → Taken × AvitoStock
take_stock p quantity key s = elim (s.processed key) [
  | none ↦ take_new p quantity key s
  | some previous ↦ (take_again p quantity previous, s)
]

-- stock.set
unfoldable pub set_count : ℕ → ℕ → AvitoStock → AvitoStock
set_count p available s = record s { counts = update s.counts p (some available) }

-- The status of a response, and the count in its body.
pub data Response : Type 0 where
  unauthorized bad_request conflict : Response
  available_units : ℕ → Response

-- server.authorized, with the server's token and the request's header.
abbrev pub authorized : ℕ → ℕ → Bool
authorized internal_token header = (internal_token == empty_id) || (header == internal_token)

abbrev pub get_stock_handler : ℕ → ℕ → ℕ → AvitoStock → Response × AvitoStock
get_stock_handler internal_token header p s =
    if not (authorized internal_token header)
    then (unauthorized, s)
    else let (n, s') = get_count p s in (available_units n, s')

abbrev pub taken_response : Taken → Response
taken_response t = if t.conflict then conflict else available_units t.left

-- The decrement of the body; `none` where it cannot be decoded.
abbrev pub patch_by : Option ℤ → ℕ → ℕ → AvitoStock → Response × AvitoStock
patch_by none p key s = (bad_request, s)
patch_by (some (negsuc n)) p key s = (bad_request, s)
patch_by (some (pos n)) p key s =
    if n == 0
    then (bad_request, s)
    else let (t, s') = take_stock p n key s in (taken_response t, s')

unfoldable pub patch_stock : ℕ → ℕ → ℕ → ℕ → Option ℤ → AvitoStock → Response × AvitoStock
unfolding take_stock
patch_stock internal_token header p key decrement s =
    if not (authorized internal_token header)
    then (unauthorized, s)
    else if key == empty_id
    then (bad_request, s)
    else patch_by decrement p key s

unfoldable pub put_stock : ℕ → Option ℤ → AvitoStock → Response × AvitoStock
unfolding set_count
put_stock p none s = (bad_request, s)
put_stock p (some (negsuc n)) s = (bad_request, s)
put_stock p (some (pos n)) s = (available_units n, set_count p n s)
