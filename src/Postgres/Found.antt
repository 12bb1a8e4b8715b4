-- ===== src/Postgres/Found.antt =====
-- The row of a right, found by its token: durable.go, GetRightByToken and getRightForUpdate.
use team_10_queue_serivce.Base.{ℕ, ◌≡◌, refl, List, [], ◌∷◌, some, arith, inl, inr, Option-cases}
use team_10_queue_serivce.Models.{Right}
use team_10_queue_serivce.Models.Result.OnOk.{OnOk}
use team_10_queue_serivce.Postgres.State.{Durable}
use team_10_queue_serivce.Postgres.Rows.{find_right, get_right_by_token, set_active}
use team_10_queue_serivce.Models.Status.{active}

pub find_right-token :
    (t : ℕ) (rs : List Right) {r : Right} → find_right t rs ≡ some r → r.token ≡ t
find_right-token t [] h = cc
find_right-token t (x ∷ rs) {r} h = ground (arith, find_right-token t rs {r = r})

pub find_right-OnOk :
    (t : ℕ) (d : Durable) → OnOk (λ r. find_right t d.rights ≡ some r) (get_right_by_token t d)
unfolding get_right_by_token
find_right-OnOk t d = elim (Option-cases (find_right t d.rights)) [
  | inl e ↦ rw (e, get_right_by_token) tt
  | inr (r, e) ↦ rw (e, get_right_by_token) refl
]

-- A right that is found active is found after its change, if the change keeps the token.
pub find_right-set_active :
    (f : Right → Right)
    → ((r : Right) → (f r).token ≡ r.token)
    → (t : ℕ) (rs : List Right) (r : Right) → find_right t rs ≡ some r
    → r.status ≡ active
    → find_right t (set_active f t rs) ≡ some (f r)
find_right-set_active f keeps t [] r h es = cc
find_right-set_active f keeps t (x ∷ rs) r h es =
    ground (arith, keeps x, find_right-set_active f keeps t rs r)
