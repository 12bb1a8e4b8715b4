-- ===== src/Lasting/Ended.antt =====
-- A right that was paid or has expired stays as it is.
use team_10_queue_serivce.Base.{ℕ, ◌≡◌, false, List, [], ◌∷◌, ◌++◌, some, arith}
use team_10_queue_serivce.Models.Status.{is_active}
use team_10_queue_serivce.Models.{Right}
use team_10_queue_serivce.World.{World}
use team_10_queue_serivce.Postgres.Rows.{find_right, set_active}
use team_10_queue_serivce.Service.Config.{QueueService}
use team_10_queue_serivce.Lasting.{IsLasting, OthersKeep}
use team_10_queue_serivce.Lasting.Traffic.{Event, handle_all, handle_all-Kept}

-- The row of the token is `r`, and `r` is not active.
abbrev pub IsEnded : ℕ → Right → List Right → Type 0
IsEnded token r rs = (find_right token rs ≡ some r) × (is_active r.status ≡ false)

find_right-append :
    (token : ℕ) (r x : Right) (rs : List Right)
    → find_right token rs ≡ some r
    → find_right token (rs ++ x ∷ []) ≡ some r
find_right-append token r x [] h = cc
find_right-append token r x (y ∷ rs) h = ground (arith, find_right-append token r x rs)

find_right-inactive :
    (f : Right → Right)
    → ((r : Right) → (f r).token ≡ r.token)
    → (t token : ℕ) (r : Right) (rs : List Right) → find_right token rs ≡ some r
    → is_active r.status ≡ false
    → find_right token (set_active f t rs) ≡ some r
find_right-inactive f keeps t token r [] h e = cc
find_right-inactive f keeps t token r (x ∷ rs) h e =
    ground (arith, keeps x, find_right-inactive f keeps t token r rs)

pub IsEnded-IsLasting : (token : ℕ) (r : Right) → IsLasting (IsEnded token r)
IsEnded-IsLasting token r = record {
  inserted = λ x rs fresh h. (find_right-append token r x rs h.0, h.1);
  changed = λ f keeps t rs h. (find_right-inactive f keeps t token r rs h.0 h.1, h.1);
}

-- A right that is not active never changes again: no sequence of requests, heartbeats, passes of the
-- workers and restarts touches its row, with whichever remote calls failing, if what other requests do
-- during a wait does not.
pub handle_all-IsEnded :
    (s : QueueService) (token : ℕ) (r : Right)
    → OthersKeep (IsEnded token r) s
    → (es : List Event) (w : World) → IsEnded token r w.store.durable.rights
    → IsEnded token r (handle_all s es w).store.durable.rights
handle_all-IsEnded s token r others es w h =
    handle_all-Kept (IsEnded token r) (IsEnded-IsLasting token r) s others es w h
