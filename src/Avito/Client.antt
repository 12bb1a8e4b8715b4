-- ===== src/Avito/Client.antt =====
-- internal/client/avito/client.go: the client of AvitoBackend. `send` is net/http's client with the far
-- side, whose state it changes: it gives back a response, or none where the call fails.
use team_10_queue_serivce.Base.{ℕ, ◌*◌, not, ◌||◌, Option, none, some, ◌==◌, if◌then◌else◌}
use team_10_queue_serivce.Base.Int.{ℤ, pos, is_positive}
use team_10_queue_serivce.Models.{unavailable, empty_id, second}
use team_10_queue_serivce.Models.Result.{Result, ok, err}

-- A header that is not set is empty.
pub data StockRequest : Type 0 where
  -- GET, with the token's header and the product of the path
  read_stock : ℕ → ℕ → StockRequest
  -- PATCH, with the token's header, the idempotency key, the product and the decrement
  change_stock : ℕ → ℕ → ℕ → ℤ → StockRequest

-- The status, and what the decoder makes of the body.
pub record HttpResponse : Type 0 where
  pub code : ℕ
  pub available : Option ℤ

pub record Client : Type 0 where
  pub token : ℕ
  pub timeout : ℤ

abbrev pub default_timeout : ℤ
default_timeout = pos (5 * second)

-- New
unfoldable pub new_client : ℕ → ℤ → Client
new_client token timeout = record {
  token = token;
  timeout = if is_positive timeout then timeout else default_timeout;
}

-- Client.authorize: the header that the request carries.
abbrev pub authorize : Client → ℕ
authorize c = if not (c.token == empty_id) then c.token else empty_id

abbrev pub decoded : Option ℤ → Result ℤ
decoded none = err unavailable
decoded (some n) = ok n

abbrev pub read_response : Option HttpResponse → Result ℤ
read_response none = err unavailable
read_response (some r) = if not (r.code == 200) then err unavailable else decoded r.available

abbrev pub change_response : Option HttpResponse → Result (Unit {0})
change_response none = err unavailable
change_response (some r) = if (r.code == 200) || (r.code == 204) then ok tt else err unavailable

module _ {S : Type 0} (send : StockRequest → S → Option HttpResponse × S) where
  -- Client.GetInitialStock
  unfoldable pub get_initial_stock : Client → ℕ → S → Result ℤ × S
  get_initial_stock c p far =
      let (r, far') = send (read_stock (authorize c) p) far in (read_response r, far')

  -- Client.DecrementStock
  unfoldable pub decrement_stock : Client → ℕ → ℕ → ℕ → S → Result (Unit {0}) × S
  decrement_stock c key p quantity far =
      let (r, far') = send (change_stock (authorize c) key p (pos quantity)) far in
      (change_response r, far')
