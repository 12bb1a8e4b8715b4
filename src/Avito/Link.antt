-- ===== src/Avito/Link.antt =====
-- The client of internal/client/avito over a network that loses requests and responses, with the stand-in
-- of cmd/avitomock on the far side.
use team_10_queue_serivce.Base.{
  ℕ, ◌-◌, ◌≡◌, ◌≢◌, refl, ap, ◌∙◌, Bool, true, false, ◌||◌, List, [], ◌∷◌, Option, none, some,
  arith, ◌<◌, ◌==◌, if◌then◌else◌, ==_refl,
}
use team_10_queue_serivce.Base.Int.{pos}
use team_10_queue_serivce.Models.{unavailable, empty_id}
use team_10_queue_serivce.Models.Result.{Result, ok, err}
use team_10_queue_serivce.Avito.{
  Response, unauthorized, bad_request, conflict, available_units, AvitoStock, count_in, authorized,
  get_stock_handler, patch_stock, taken_response, take_stock, take_new,
}
use team_10_queue_serivce.Avito.Client.{
  StockRequest, read_stock, change_stock, HttpResponse, Client, authorize, decrement_stock,
  change_response,
}
use team_10_queue_serivce.Avito.ExactlyOnce.{count_in-take_new}

-- The mux of the stand-in, with its token.
abbrev pub serve_stock : ℕ → StockRequest → AvitoStock → Response × AvitoStock
serve_stock token (read_stock header p) s = get_stock_handler token header p s
serve_stock token (change_stock header key p n) s = patch_stock token header p key (some n) s

abbrev pub on_wire : Response → HttpResponse
on_wire unauthorized = record { code = 401; available = none }
on_wire bad_request = record { code = 400; available = none }
on_wire conflict = record { code = 409; available = none }
on_wire (available_units n) = record { code = 200; available = some (pos n) }

-- What becomes of one call.
pub data Weather : Type 0 where
  clear request_lost response_lost : Weather

abbrev pub under : Weather → Response × AvitoStock → AvitoStock → Option HttpResponse × AvitoStock
under clear (r, s') s = (some (on_wire r), s')
under request_lost out s = (none, s)
under response_lost (r, s') s = (none, s')

abbrev pub send_under : ℕ → Weather → StockRequest → AvitoStock → Option HttpResponse × AvitoStock
send_under token weather r s = under weather (serve_stock token r s) s

abbrev pub proceed :
    Result (Unit {0}) × AvitoStock → (AvitoStock → Bool × AvitoStock) → Bool × AvitoStock
proceed (ok u, s) rest = (true, s)
proceed (err e, s) rest = rest s

-- A decrement that is repeated until the client reports success, once for each weather at most.
abbrev pub decrement_until : ℕ → Client → ℕ → ℕ → ℕ → List Weather → AvitoStock → Bool × AvitoStock
decrement_until token c key p n [] s = (false, s)
decrement_until token c key p n (x ∷ xs) s =
    proceed (decrement_stock (send_under token x) c key p n s)
      (λ s'. decrement_until token c key p n xs s')

abbrev pub is_clear : Weather → Bool
is_clear clear = true
is_clear _ = false

abbrev pub some_clear : List Weather → Bool
some_clear [] = false
some_clear (x ∷ xs) = is_clear x || some_clear xs

-- What the client is told of a decrement that the far side accepts.
abbrev told : Weather → Result (Unit {0})
told x = if is_clear x then ok tt else err unavailable

abbrev left_by : Weather → AvitoStock → AvitoStock → AvitoStock
left_by request_lost s s' = s
left_by _ s s' = s'

-- The stock after the attempts: as before, or with the decrement.
abbrev reached : List Weather → AvitoStock → AvitoStock → AvitoStock
reached [] s s' = s
reached (request_lost ∷ xs) s s' = reached xs s s'
reached (_ ∷ xs) s s' = s'

module _ (token key p n : ℕ) (c : Client) (agreed : c.token ≡ token) (named : key ≢ empty_id)
    (some_units : 0 < n) where
  admitted : authorized token (authorize c) ≡ true
  admitted = ground (arith, agreed)

  patch-taken :
      (s : AvitoStock)
      → patch_stock token (authorize c) p key (some (pos n)) s
        ≡ (let (t, s') = take_stock p n key s in (taken_response t, s'))
  unfolding patch_stock
  patch-taken s = rw (admitted, named_test, units_test) refl
    where
      named_test : (key == empty_id) ≡ false
      named_test = ground (arith, named)

      units_test : (n == 0) ≡ false
      units_test = ground (arith, some_units)

  patch-new :
      (s : AvitoStock)
      → s.processed key ≡ none
      → patch_stock token (authorize c) p key (some (pos n)) s
        ≡ (available_units (count_in s p - n), (take_new p n key s).1)
  unfolding take_stock
  patch-new s fresh = patch-taken s ∙ (rw (take_stock, fresh) refl)

  patch-again :
      (left : ℕ) (s : AvitoStock)
      → s.processed key ≡ some (record { product_id = p; quantity = n; left = left })
      → patch_stock token (authorize c) p key (some (pos n)) s ≡ (available_units left, s)
  unfolding take_stock
  patch-again left s old = patch-taken s ∙ (rw (take_stock, old, ==_refl p, ==_refl n) refl)

  -- One call, if the far side accepts.
  call-told :
      (x : Weather) (left : ℕ) (s s' : AvitoStock)
      → patch_stock token (authorize c) p key (some (pos n)) s ≡ (available_units left, s')
      → decrement_stock (send_under token x) c key p n s ≡ (told x, left_by x s s')
  unfolding decrement_stock
  call-told clear left s s' e =
      ap (λ out. (change_response (under clear out s).0, (under clear out s).1)) e
  call-told request_lost left s s' e = refl
  call-told response_lost left s s' e =
      ap (λ out. (change_response (under response_lost out s).0, (under response_lost out s).1)) e

  after_call :
      (x : Weather) (xs : List Weather) (s : AvitoStock) {out : Result (Unit {0}) × AvitoStock}
      → decrement_stock (send_under token x) c key p n s ≡ out
      → decrement_until token c key p n (x ∷ xs) s
        ≡ proceed out (λ s'. decrement_until token c key p n xs s')
  after_call x xs s e = ap (λ out. proceed out (λ s'. decrement_until token c key p n xs s')) e

  -- The key has been processed: repetitions change nothing, and the first that gets through succeeds.
  decrement_until-again :
      (left : ℕ) (s : AvitoStock)
      → s.processed key ≡ some (record { product_id = p; quantity = n; left = left })
      → (xs : List Weather) → decrement_until token c key p n xs s ≡ (some_clear xs, s)
  unfolding decrement_stock
  decrement_until-again left s old [] = refl
  decrement_until-again left s old (clear ∷ xs) =
      after_call clear xs s (call-told clear left s s (patch-again left s old))
  decrement_until-again left s old (request_lost ∷ xs) = decrement_until-again left s old xs
  decrement_until-again left s old (response_lost ∷ xs) =
      after_call response_lost xs s (call-told response_lost left s s (patch-again left s old))
      ∙ decrement_until-again left s old xs

  -- A new key.
  decrement_until-new :
      (s : AvitoStock)
      → s.processed key ≡ none
      → (xs : List Weather)
      → decrement_until token c key p n xs s ≡ (some_clear xs, reached xs s (take_new p n key s).1)
  unfolding decrement_stock
  decrement_until-new s fresh [] = refl
  decrement_until-new s fresh (clear ∷ xs) =
      after_call clear xs s
        (call-told clear (count_in s p - n) s (take_new p n key s).1 (patch-new s fresh))
  decrement_until-new s fresh (request_lost ∷ xs) = decrement_until-new s fresh xs
  decrement_until-new s fresh (response_lost ∷ xs) =
      after_call response_lost xs s
        (call-told response_lost (count_in s p - n) s (take_new p n key s).1 (patch-new s fresh))
      ∙ decrement_until-again (count_in s p - n) (take_new p n key s).1 (rw (==_refl key) refl) xs

reached-clear :
    (xs : List Weather) (s s' : AvitoStock) → some_clear xs ≡ true → reached xs s s' ≡ s'
reached-clear [] s s' h = cc
reached-clear (clear ∷ xs) s s' h = refl
reached-clear (request_lost ∷ xs) s s' h = reached-clear xs s s' h
reached-clear (response_lost ∷ xs) s s' h = refl

-- A decrement with a new key that the client repeats until it is told of success takes its quantity from
-- its product once and nothing from any other, however many requests and responses the network loses on
-- the way, and the client is told, if both sides have the same token, the key is not empty, the quantity
-- is not 0 and the network loses nothing at some attempt.
pub decrement_until-once :
    (token key p n : ℕ) (c : Client) (s : AvitoStock) (xs : List Weather)
    → c.token ≡ token
    → key ≢ empty_id
    → 0 < n
    → s.processed key ≡ none
    → some_clear xs ≡ true
    → let out = decrement_until token c key p n xs s in
      (out.0 ≡ true) × ((q : ℕ) → count_in out.1 q ≡ count_in s q - (if p == q then n else 0))
decrement_until-once token key p n c s xs agreed named some_units fresh h =
    let e = decrement_until-new token key p n c agreed named some_units s fresh xs in
    (
      ap (λ out. out.0) e ∙ h,
      λ q.
          ap (λ out. count_in out.1 q) e
          ∙ ap (λ t. count_in t q) (reached-clear xs s (take_new p n key s).1 h)
          ∙ count_in-take_new q p n key s,
    )
