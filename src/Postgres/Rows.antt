-- ===== src/Postgres/Rows.antt =====
-- Single statements of durable.go. The functions on rows are the statements' clauses WHERE and SET.
use team_10_queue_serivce.Base.{
  ℕ, ◌+◌, ◌-◌, Bool, true, false, ◌&&◌, List, [], ◌∷◌, ◌++◌, Option, none, some, ltb, leb, ◌==◌,
  if◌then◌else◌,
}
use team_10_queue_serivce.Models.Status.{expired, used, purchased, is_active, is_right_active}
use team_10_queue_serivce.Models.{
  ProductStock, QueueMembership, Right, token_not_found, constraint_violation,
}
use team_10_queue_serivce.Models.Result.{Result, ok, err}
use team_10_queue_serivce.Postgres.State.{Durable}

-- SELECT … FROM rights WHERE token = ?
abbrev pub find_right : ℕ → List Right → Option Right
find_right t [] = none
find_right t (r ∷ rs) = if r.token == t then some r else find_right t rs

-- DurableRepo.GetRightByToken, and getRightForUpdate, whose row lock lasts for its transaction.
unfoldable pub get_right_by_token : ℕ → Durable → Result Right
get_right_by_token t d = elim (find_right t d.rights) [ none ↦ err token_not_found | some r ↦ ok r ]

-- INSERT INTO rights, with the table's primary key and CHECK (quantity > 0).
unfoldable pub insert_right : Right → Durable → Result Durable
insert_right r d = elim (find_right r.token d.rights) [
  | some old ↦ err constraint_violation
  | none ↦
      if ltb 0 r.quantity
      then ok (record d { rights = d.rights ++ r ∷ [] })
      else err constraint_violation
]

-- UPDATE rights SET … WHERE token = ? AND status = 'ACTIVE'
abbrev pub set_active : (Right → Right) → ℕ → List Right → List Right
set_active f t [] = []
set_active f t (r ∷ rs) =
    (if (r.token == t) && is_active r.status then f r else r) ∷ set_active f t rs

abbrev pub expire_row : Right → Right
expire_row r = record r { status = expired }

abbrev pub use_row : ℕ → ℕ → Right → Right
use_row order now r = record r { status = used; order_id = some order; used_at = some now }

-- SELECT … FROM queue_memberships WHERE product_id = ? AND user_id = ?
abbrev pub find_membership : ℕ → ℕ → List QueueMembership → Option QueueMembership
find_membership p u [] = none
find_membership p u (m ∷ ms) =
    if (m.product_id == p) && (m.user_id == u) then some m else find_membership p u ms

-- ON CONFLICT DO UPDATE keeps the row's key and stamps it with the server's time.
abbrev pub replace_row : ℕ → QueueMembership → QueueMembership → QueueMembership
replace_row now new old = record new { id = old.id; updated_at = now }

abbrev pub upsert_rows : ℕ → ℕ → QueueMembership → List QueueMembership → List QueueMembership
upsert_rows now id new [] = record new { id = id } ∷ []
upsert_rows now id new (m ∷ ms) =
    if (m.product_id == new.product_id) && (m.user_id == new.user_id)
    then replace_row now new m ∷ ms
    else m ∷ upsert_rows now id new ms

-- current_token REFERENCES rights (token)
abbrev pub references_right : Option ℕ → List Right → Bool
references_right none rs = true
references_right (some t) rs = elim (find_right t rs) [ none ↦ false | some r ↦ true ]

-- DurableRepo.UpsertMembership and upsertMembershipTx; `now` is the server's clock. The sequence
-- moves on at a conflict too.
unfoldable pub upsert_membership : ℕ → QueueMembership → Durable → Result Durable
upsert_membership now m d =
    if ltb 0 m.quantity && references_right m.current_token d.rights
    then ok (record d {
      memberships = upsert_rows now d.next_membership_id m d.memberships;
      next_membership_id = d.next_membership_id + 1;
    })
    else err constraint_violation

-- UPDATE queue_memberships … of UseRightTx
abbrev pub is_held_by : ℕ → ℕ → ℕ → QueueMembership → Bool
is_held_by p u t m =
    (m.product_id == p)
    && (m.user_id == u)
    && is_right_active m.status
    && elim m.current_token [ none ↦ false | some s ↦ s == t ]

abbrev pub purchase_row : ℕ → QueueMembership → QueueMembership
purchase_row now m = record m {
  status = purchased;
  available_quantity = none;
  current_token = none;
  expires_at = none;
  updated_at = now;
}

abbrev pub purchase_rows : ℕ → ℕ → ℕ → ℕ → List QueueMembership → List QueueMembership
purchase_rows now p u t [] = []
purchase_rows now p u t (m ∷ ms) =
    (if is_held_by p u t m then purchase_row now m else m) ∷ purchase_rows now p u t ms

abbrev pub find_stock : ℕ → List ProductStock → Option ProductStock
find_stock p [] = none
find_stock p (s ∷ ss) = if s.product_id == p then some s else find_stock p ss

-- DurableRepo.SaveInitialStock: ON CONFLICT DO NOTHING.
unfoldable pub save_initial_stock : ProductStock → Durable → Durable
save_initial_stock stock d = elim (find_stock stock.product_id d.stocks) [
  | none ↦ record d { stocks = d.stocks ++ stock ∷ [] }
  | some s ↦ d
]

-- UPDATE product_stock SET product_count = product_count - q WHERE … AND product_count >= q;
-- `none`: no row was affected.
abbrev pub decrement_stock : ℕ → ℕ → ℕ → List ProductStock → Option (List ProductStock)
decrement_stock now p q [] = none
decrement_stock now p q (s ∷ ss) =
    if s.product_id == p
    then if leb q s.product_count
      then some (record s { product_count = s.product_count - q; updated_at = now } ∷ ss)
      else none
    else elim (decrement_stock now p q ss) [ none ↦ none | some ss' ↦ some (s ∷ ss') ]

-- DurableRepo.ExpireRights
unfoldable pub expire_rights : List ℕ → Durable → Durable
expire_rights [] d = d
expire_rights (t ∷ ts) d = expire_rights ts (record d { rights = set_active expire_row t d.rights })
