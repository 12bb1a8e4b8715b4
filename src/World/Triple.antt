-- ===== src/World/Triple.antt =====
-- Rules for what an action leaves of the stores, whichever of its calls fail.
use team_10_queue_serivce.Base.{
  ℕ, suc, ◌+◌, ◌≡◌, refl, Bool, true, false, List, [], ◌∷◌, if◌then◌else◌,
}
use team_10_queue_serivce.Models.{Error}
use team_10_queue_serivce.Models.Result.{Result, ok, err, both}
use team_10_queue_serivce.World.{
  Store, World, M, pure, raise, lift, attempt, finally, call, call_under, time_now, new_uuid, ◌>>=◌,
  collect, advance_clock,
}

-- An action returned a value, and `R` holds of it and the stores, or an error, and `E` holds.
abbrev pub Ends : {A : Type 0} → (A → Store → Type 0) → (Store → Type 0) → Result A → Store → Type 0
Ends R E (ok a) s = R a s
Ends R E (err e) s = E s

pub record Triple {A : Type 0} (P : Store → Type 0) (m : M A) (R : A → Store → Type 0)
    (E : Store → Type 0) : Type 0 where
  pub from : (w : World) → P w.store → Ends R E (m w).0 (m w).1.store

module _ {A : Type 0} {P : Store → Type 0} {R : A → Store → Type 0} {E : Store → Type 0} where
  pub Triple-pure : (a : A) → ((s : Store) → P s → R a s) → Triple P (pure a) R E
  Triple-pure a h = record { from = λ w p. h w.store p }

  pub Triple-raise : (e : Error) → ((s : Store) → P s → E s) → Triple P (raise e) R E
  Triple-raise e h = record { from = λ w p. h w.store p }

  -- A call that fails leaves the stores alone.
  pub Triple-call :
      (f : ℕ → Store → Result A × Store)
      → ((now : ℕ) (s : Store) → P s → Ends R E (f now s).0 (f now s).1)
      → ((s : Store) → P s → E s)
      → Triple P (call f) R E
  unfolding call
  Triple-call f done failed = record { from = λ w. by_faults w.faults w }
    where
      by_faults :
          (fs : List Bool) (w : World)
          → P w.store
          → Ends R E (call_under f fs w).0 (call_under f fs w).1.store
      by_faults [] w p = done w.clock w.store p
      by_faults (false ∷ fs) w p = done w.clock w.store p
      by_faults (true ∷ fs) w p = failed w.store p

module _ {A B : Type 0} {Q : A → Store → Type 0} {R : B → Store → Type 0} {E : Store → Type 0} where
  Ends-bind :
      (f : A → M B)
      → ((a : A) → Triple (Q a) (f a) R E)
      → (r : Result A) (w : World) → Ends Q E r w.store
      → let out = elim r as (λ _. Result B × World) [ ok a ↦ f a w | err e ↦ (err e, w) ] in
        Ends R E out.0 out.1.store
  Ends-bind f kf (ok a) w h = (kf a).from w h
  Ends-bind f kf (err e) w h = h

  pub Triple-bind :
      {P : Store → Type 0} (m : M A) (f : A → M B)
      → Triple P m Q E
      → ((a : A) → Triple (Q a) (f a) R E)
      → Triple P (m >>= f) R E
  Triple-bind m f km kf = record { from = λ w p. Ends-bind f kf (m w).0 (m w).1 (km.from w p) }

module _ {A : Type 0} {P : Store → Type 0} {R : A → Store → Type 0} {E : Store → Type 0} where
  pub Triple-if :
      (b : Bool) (m n : M A)
      → (b ≡ true → Triple P m R E)
      → (b ≡ false → Triple P n R E)
      → Triple P (if b then m else n) R E
  Triple-if true m n km kn = km refl
  Triple-if false m n km kn = kn refl

  -- A weaker condition before.
  pub Triple-before :
      {Q : Store → Type 0} (m : M A) → ((s : Store) → Q s → P s) → Triple P m R E → Triple Q m R E
  Triple-before m h k = record { from = λ w q. k.from w (h w.store q) }

  -- A condition that says nothing of the stores.
  pub Triple-given : {F : Type 0} (m : M A) → (F → Triple P m R E) → Triple (λ s. P s × F) m R E
  Triple-given m k = record { from = λ w h. (k h.1).from w h.0 }

  -- A weaker condition behind a value.
  pub Triple-after :
      {Q : A → Store → Type 0} (m : M A)
      → ((a : A) (s : Store) → R a s → Q a s)
      → Triple P m R E
      → Triple P m Q E
  Triple-after {Q} m h k = record { from = λ w p. weaken (m w).0 (m w).1.store (k.from w p) }
    where
      weaken : (r : Result A) (s : Store) → Ends R E r s → Ends Q E r s
      weaken (ok a) s x = h a s x
      weaken (err e) s x = x

  -- A weaker condition behind an error.
  pub Triple-error :
      {F : Store → Type 0} (m : M A) → ((s : Store) → E s → F s) → Triple P m R E → Triple P m R F
  Triple-error {F} m h k = record { from = λ w p. weaken (m w).0 (m w).1.store (k.from w p) }
    where
      weaken : (r : Result A) (s : Store) → Ends R E r s → Ends R F r s
      weaken (ok a) s x = x
      weaken (err e) s x = h s x

  pub Triple-clock : (f : ℕ → M A) → ((n : ℕ) → Triple P (f n) R E) → Triple P (time_now >>= f) R E
  unfolding time_now
  Triple-clock f k = record { from = λ w p. from_clock w.elapsed w p }
    where
      from_clock :
          (ns : List ℕ) (w : World)
          → P w.store
          → let w' = advance_clock ns w in Ends R E (f w'.clock w').0 (f w'.clock w').1.store
      from_clock [] w p = (k w.clock).from w p
      from_clock (n ∷ ns) w p =
          (k (w.clock + n)).from (record w { clock = w.clock + n; elapsed = ns }) p

  pub Triple-uuid : (f : ℕ → M A) → ((n : ℕ) → Triple P (f n) R E) → Triple P (new_uuid >>= f) R E
  unfolding new_uuid
  Triple-uuid f k = record {
    from = λ w p. (k w.next_uuid).from (record w { next_uuid = suc w.next_uuid }) p;
  }

  pub Triple-attempt :
      {B : Type 0} {T : B → Store → Type 0} {F : Store → Type 0} (m : M A) (f : Result A → M B)
      → Triple P m R E
      → ((a : A) → Triple (R a) (f (ok a)) T F)
      → ((e : Error) → Triple E (f (err e)) T F)
      → Triple P (attempt m >>= f) T F
  Triple-attempt {B} {T} {F} m f km kok kerr = record {
    from = λ w p. after (m w).0 (m w).1 (km.from w p);
  }
    where
      after : (r : Result A) (w : World) → Ends R E r w.store → Ends T F (f r w).0 (f r w).1.store
      after (ok a) w h = (kok a).from w h
      after (err e) w h = (kerr e).from w h

-- Every store.
abbrev pub Always : Store → Type 0
Always s = Unit

-- Nothing is said of what an action leaves.
pub Triple-always : {A : Type 0} {P : Store → Type 0} (m : M A) → Triple P m (λ a. Always) Always
Triple-always {A} m = record { from = λ w h. anyway (m w).0 (m w).1.store }
  where
    anyway : (r : Result A) (s : Store) → Ends (λ a. Always) Always r s
    anyway (ok a) s = tt
    anyway (err e) s = tt

-- No store: an action with this condition behind an error returns.
abbrev pub Never : Store → Type 0
Never s = ⊥

-- An action that cannot fail returns a value, and the condition holds of it.
pub Triple-returns :
    {A : Type 0} {P : Store → Type 0} {R : A → Store → Type 0} (m : M A)
    → Triple P m R Never
    → (w : World) → P w.store
    → (a : A) × ((m w).0 ≡ ok a) × R a (m w).1.store
Triple-returns {A} {P} {R} m k w h = returned (m w).0 (m w).1.store (k.from w h)
  where
    returned : (r : Result A) (s : Store) → Ends R Never r s → (a : A) × (r ≡ ok a) × R a s
    returned (ok a) s x = (a, refl, x)
    returned (err e) s x = elim x [ ]

-- `m` leaves `Q` behind however it ends.
abbrev pub Leaves : {A : Type 0} → (Store → Type 0) → M A → (Store → Type 0) → Type 0
Leaves P m Q = Triple P m (λ _. Q) Q

module _ {A : Type 0} {P Q : Store → Type 0} where
  pub Leaves-finally :
      (m : M A) (cleanup : M (Unit {0}))
      → Leaves P m Q
      → Leaves Q cleanup Q
      → Leaves P (finally m cleanup) Q
  Leaves-finally m cleanup km kc = record {
    from = λ w p.
        settled (m w).0 (cleanup (m w).1).0 (cleanup (m w).1).1.store
          (kc.from (m w).1 (outcome (m w).0 (m w).1.store (km.from w p)));
  }
    where
      outcome : (r : Result A) (s : Store) → Ends (λ _. Q) Q r s → Q s
      outcome (ok a) s h = h
      outcome (err e) s h = h

      settled :
          (r : Result A) (c : Result (Unit {0})) (s : Store)
          → Ends (λ _. Q) Q c s
          → Ends (λ _. Q) Q r s
      settled (ok a) (ok u) s h = h
      settled (ok a) (err e) s h = h
      settled (err e) (ok u) s h = h
      settled (err e) (err e') s h = h

module _ {P Q R : Store → Type 0} where
  pub Leaves-collect : (m n : M (Unit {0})) → Leaves P m Q → Leaves Q n R → Leaves P (collect m n) R
  Leaves-collect m n km kn =
      Triple-attempt m (λ a. attempt n >>= λ b. lift (both a b)) km (λ u. second (ok u))
        (λ e. second (err e))
    where
      ends : (r : Result (Unit {0})) → Leaves R (lift r) R
      ends (ok u) = Triple-pure u (λ s h. h)
      ends (err e) = Triple-raise e (λ s h. h)

      second : (r : Result (Unit {0})) → Leaves Q (attempt n >>= λ b. lift (both r b)) R
      second r =
          Triple-attempt n (λ b. lift (both r b)) kn (λ u. ends (both r (ok u)))
            (λ e. ends (both r (err e)))

-- What is left, whichever way the action ended.
pub Leaves-after :
    {A : Type 0} {P Q : Store → Type 0} (m : M A)
    → Leaves P m Q
    → (w : World) → P w.store
    → Q (m w).1.store
Leaves-after {A} {P} {Q} m k w h = settled (m w).0 (m w).1.store (k.from w h)
  where
    settled : (r : Result A) (s : Store) → Ends (λ _. Q) Q r s → Q s
    settled (ok a) s x = x
    settled (err e) s x = x

-- A call that leaves the stores as they are.
pub Leaves-reads :
    {A : Type 0} {P : Store → Type 0} (f : Store → Result A)
    → Leaves P (call λ now st. (f st, st)) P
Leaves-reads {A} {P} f = Triple-call _ (λ now st h. anyway (f st) st h) (λ st h. h)
  where
    anyway : (r : Result A) (st : Store) → P st → Ends (λ _. P) P r st
    anyway (ok a) st h = h
    anyway (err e) st h = h
