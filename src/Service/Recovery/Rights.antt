-- ===== src/Service/Recovery/Rights.antt =====
-- recovery.go: the products and the rights of a snapshot. The maps of the source are a function and
-- association lists; rows that Go changes in place come out changed.
use team_10_queue_serivce.Base.{
  ℕ, ◌+◌, Bool, true, false, not, ◌||◌, ◌&&◌, List, [], ◌∷◌, ◌++◌, Option, some, ltb, ◌==◌,
  if◌then◌else◌, update, is_some,
}
use team_10_queue_serivce.Models.Status.{right_valid, is_active}
use team_10_queue_serivce.Models.{ProductStock, QueueMembership, Right, empty_id}
use team_10_queue_serivce.Postgres.Rows.{find_right, expire_row}

pub record RecoveryProductState : Type 0 where
  pub stock : ProductStock
  pub queued_users : List ℕ
  pub reserved : ℕ

pub record RecoveryTimer : Type 0 where
  pub product_id : ℕ
  pub user_id : ℕ
  pub deadline : ℕ

pub record RecoveryRepairs : Type 0 where
  pub expired_rights : List ℕ
  pub declined_members : List QueueMembership
  pub skipped : ℕ

abbrev pub no_repairs : RecoveryRepairs
no_repairs = record { expired_rights = []; declined_members = []; skipped = 0 }

abbrev pub skip : RecoveryRepairs → RecoveryRepairs
skip repairs = record repairs { skipped = repairs.skipped + 1 }

abbrev pub expire_too : ℕ → RecoveryRepairs → RecoveryRepairs
expire_too token repairs = record repairs { expired_rights = repairs.expired_rights ++ token ∷ [] }

abbrev pub Products : Type 0
Products = ℕ → Option RecoveryProductState

-- A count cannot be negative here.
abbrev pub is_bad_stock : ProductStock → Bool
is_bad_stock stock = (stock.product_id == empty_id) || ltb stock.total_stock stock.product_count

-- One round of recoveryProducts.
abbrev pub add_product : ProductStock → Products × RecoveryRepairs → Products × RecoveryRepairs
add_product stock (products, repairs) =
    if is_bad_stock stock || is_some (products stock.product_id)
    then (products, skip repairs)
    else (
      update products stock.product_id
          (some (record { stock = stock; queued_users = []; reserved = 0 })),
      repairs,
    )

unfoldable pub recovery_products :
    List ProductStock → Products × RecoveryRepairs → Products × RecoveryRepairs
recovery_products [] acc = acc
recovery_products (stock ∷ stocks) acc = recovery_products stocks (add_product stock acc)

abbrev pub is_bad_right : Right → Bool
is_bad_right right =
    (right.token == empty_id)
    || (right.user_id == empty_id)
    || (right.product_id == empty_id)
    || (right.quantity == 0)
    || not (right_valid right.status)

-- `rows` are the snapshot's rights so far; `by_token` is rightsByToken, and `claims` activeRights.
pub record RecoveredRights : Type 0 where
  pub rows : List Right
  pub by_token : List Right
  pub claims : List (ℕ × Bool)
  pub repairs : RecoveryRepairs

-- One round of recoveryRights.
abbrev pub add_right : Products → Right → RecoveredRights → RecoveredRights
add_right products right acc =
    if is_bad_right right || is_some (find_right right.token acc.by_token)
    then record acc { rows = acc.rows ++ right ∷ []; repairs = skip acc.repairs }
    else if not (is_active right.status)
    then record acc { rows = acc.rows ++ right ∷ []; by_token = acc.by_token ++ right ∷ [] }
    else if is_some (products right.product_id)
    then record acc {
      rows = acc.rows ++ right ∷ [];
      by_token = acc.by_token ++ right ∷ [];
      claims = acc.claims ++ (right.token, false) ∷ [];
    }
    else record acc {
      rows = acc.rows ++ expire_row right ∷ [];
      by_token = acc.by_token ++ expire_row right ∷ [];
      repairs = expire_too right.token acc.repairs;
    }

unfoldable pub recovery_rights : Products → List Right → RecoveredRights → RecoveredRights
recovery_rights products [] acc = acc
recovery_rights products (right ∷ rights) acc =
    recovery_rights products rights (add_right products right acc)

-- activeRights[token] = true
abbrev pub set_claimed : ℕ → List (ℕ × Bool) → List (ℕ × Bool)
set_claimed t [] = (t, true) ∷ []
set_claimed t ((s, claimed) ∷ claims) =
    if s == t then (t, true) ∷ claims else (s, claimed) ∷ set_claimed t claims

-- The status is set in the row that rightsByToken has for the token.
abbrev pub expire_registered : ℕ → List Right → List Right
expire_registered t [] = []
expire_registered t (r ∷ rows) =
    if (r.token == t) && not (is_bad_right r)
    then expire_row r ∷ rows
    else r ∷ expire_registered t rows

-- The loop over activeRights; the order of a Go map does not matter to what it does.
unfoldable pub expire_orphans :
    List (ℕ × Bool) → List Right × RecoveryRepairs → List Right × RecoveryRepairs
expire_orphans [] acc = acc
expire_orphans ((token, claimed) ∷ claims) (rows, repairs) =
    expire_orphans claims (
      if claimed then (rows, repairs) else (expire_registered token rows, expire_too token repairs))
