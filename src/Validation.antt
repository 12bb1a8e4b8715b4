-- ===== src/Validation.antt =====
-- What ValidateRight and ValidateRightForCheckout in backend/internal/service/queue_service.go check.
use team_10_queue_serivce.Base.{
  ℕ, ◌≡◌, refl, subst, Bool, true, inl, inr, ltb, ◌==◌, if◌then◌else◌, Bool-cases, ==_iff,
}
use team_10_queue_serivce.Models.Status.{RightStatus, active, expired, used}
use team_10_queue_serivce.Models.{Right, forbidden, token_expired}
use team_10_queue_serivce.Models.Result.{Result, ok, err}
use team_10_queue_serivce.World.{World, M, pure, raise, time_now, ◌>>=◌}
use team_10_queue_serivce.Service.Payment.{
  fetch_right, by_right_status, get_active_right, validate_right, validate_right_for_checkout,
}

-- `Q` holds of the value that came out, if one did, and of the world behind it.
abbrev Gives : {A : Type 0} → (A → World → Type 0) → Result A × World → Type 0
Gives Q (ok a, w) = Q a w
Gives Q (err e, w) = Unit

Gives-bind :
    {A B : Type 0} (P : A → World → Type 0) (Q : B → World → Type 0) (m : M A) (f : A → M B)
    (w : World)
    → Gives P (m w)
    → ((a : A) (w' : World) → P a w' → Gives Q (f a w'))
    → Gives Q ((m >>= f) w)
Gives-bind {A = A} {B = B} P Q m f w h k = go (m w).0 (m w).1 h
  where
    go :
        (r : Result A) (w' : World)
        → Gives P (r, w')
        → Gives Q (elim r as (λ _. Result B × World) [ ok a ↦ f a w' | err e ↦ (err e, w') ])
    go (ok a) w' h = k a w' h
    go (err e) w' h = tt

anything : {A : Type 0} (x : Result A × World) → Gives (λ _ _. Unit) x
anything (ok a, w) = tt
anything (err e, w) = tt

-- The right is active, and at the last reading of the clock it had not expired.
pub record IsLive (r : Right) (w : World) : Type 0 where
  pub is_active : r.status ≡ active
  pub in_time : ltb w.clock r.expires_at ≡ true

time_now-clock : (w : World) → Gives (λ now w'. now ≡ w'.clock) (time_now w)
unfolding time_now
time_now-clock w = refl

by_right_status-IsLive :
    (status : RightStatus) (r : Right) (w : World)
    → r.status ≡ status
    → Gives IsLive (by_right_status status r w)
by_right_status-IsLive used r w e = tt
by_right_status-IsLive expired r w e = tt
by_right_status-IsLive (RightStatus.other t) r w e = tt
by_right_status-IsLive active r w e =
    Gives-bind (λ now w'. now ≡ w'.clock) IsLive time_now
      (λ now. if ltb now r.expires_at then pure r else raise token_expired) w (time_now-clock w)
      λ now w' k. elim (Bool-cases (ltb now r.expires_at)) [
        | inl f ↦
            rw f (record { is_active = e; in_time = subst (λ n. ltb n r.expires_at ≡ true) k f })
        | inr f ↦ rw f tt
      ]

get_active_right-IsLive : (token : ℕ) (w : World) → Gives IsLive (get_active_right token w)
unfolding get_active_right
get_active_right-IsLive token w =
    Gives-bind (λ _ _. Unit) IsLive (fetch_right token) _ w (anything (fetch_right token w))
      λ r w' h. by_right_status-IsLive r.status r w' refl

-- A right that passes a last comparison.
checked :
    (token : ℕ) (test : Right → Bool) (w : World)
    → Gives
        (λ r w'. IsLive r w' × (test r ≡ true))
        ((get_active_right token >>= λ r. if test r then pure r else raise forbidden) w)
checked token test w =
    Gives-bind IsLive (λ r w'. IsLive r w' × (test r ≡ true)) (get_active_right token)
      (λ r. if test r then pure r else raise forbidden) w (get_active_right-IsLive token w)
      λ r w' h. elim (Bool-cases (test r)) [ inl f ↦ rw f (h, f) | inr f ↦ rw f tt ]

module _ (token : ℕ) (w w' : World) (r : Right) where
  -- A right that ValidateRight returns is active, had not expired when the clock was last read, and
  -- belongs to the user who asked, whichever remote calls fail and whatever cache and tables hold.
  pub validate_right-IsLive :
      (u : ℕ) → validate_right token u w ≡ (ok r, w') → IsLive r w' × (r.user_id ≡ u)
  unfolding validate_right
  validate_right-IsLive u h =
      let c =
        subst (Gives (λ r w'. IsLive r w' × ((r.user_id == u) ≡ true))) h
          (checked token (λ r. r.user_id == u) w) in
      (c.0, (==_iff r.user_id u).0 c.1)

  -- A right that ValidateRightForCheckout returns is active, had not expired when the clock was last
  -- read, and is for the product asked for, whichever remote calls fail and whatever cache and tables
  -- hold.
  pub validate_right_for_checkout-IsLive :
      (p : ℕ)
      → validate_right_for_checkout token p w ≡ (ok r, w')
      → IsLive r w' × (r.product_id ≡ p)
  unfolding validate_right_for_checkout
  validate_right_for_checkout-IsLive p h =
      let c =
        subst (Gives (λ r w'. IsLive r w' × ((r.product_id == p) ≡ true))) h
          (checked token (λ r. r.product_id == p) w) in
      (c.0, (==_iff r.product_id p).0 c.1)
