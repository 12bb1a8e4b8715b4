-- ===== src/Redis/Restored.antt =====
-- The queue that restoreProductStateScript in cache.go leaves.
use team_10_queue_serivce.Base.{
  and_true, not-true, ℕ, ◌+◌, ◌≤◌, ◌≡◌, refl, sym, ap, ◌∙◌, Bool, true, false, not, ◌&&◌, List, [],
  ◌∷◌, ◌++◌, arith, ltb, leb, ◌==◌, length, contains, ==_refl,
}
use team_10_queue_serivce.Redis.SortedSet.{SortedSet, id_key, zinsert}
use team_10_queue_serivce.Redis.State.{Cache}
use team_10_queue_serivce.Redis.Scripts.{restore_product_state_script, restored_queue}
use team_10_queue_serivce.Redis.Fifo.{IsFair}
use team_10_queue_serivce.Redis.Order.{
  is_queue, leads, is_absent, is_below, zinsert-last, zrem-absent,
}

abbrev pub are_distinct : List ℕ → Bool
are_distinct [] = true
are_distinct (u ∷ us) = not (contains u us) && are_distinct us

-- The users in order, with scores from `n` on.
abbrev pub numbered : ℕ → List ℕ → SortedSet ℕ
numbered n [] = []
numbered n (u ∷ us) = (n, u) ∷ numbered (n + 1) us

-- Nobody of the list waits yet.
abbrev are_absent : List ℕ → SortedSet ℕ → Bool
are_absent [] z = true
are_absent (u ∷ us) z = is_absent u z && are_absent us z

append_nil : (z : SortedSet ℕ) → z ++ [] ≡ z
append_nil [] = refl
append_nil (x ∷ z) = ap (λ t. x ∷ t) (append_nil z)

append_assoc :
    (z : SortedSet ℕ) (n u : ℕ) (y : SortedSet ℕ) → (z ++ (n, u) ∷ []) ++ y ≡ z ++ (n, u) ∷ y
append_assoc [] n u y = refl
append_assoc (x ∷ z) n u y = ap (λ t. x ∷ t) (append_assoc z n u y)

is_absent-snoc :
    (v n u : ℕ) (z : SortedSet ℕ)
    → is_absent v z ≡ true
    → (u == v) ≡ false
    → is_absent v (z ++ (n, u) ∷ []) ≡ true
is_absent-snoc v n u [] h e = ground (arith, e)
is_absent-snoc v n u ((s, j) ∷ z) h e = ground (arith, h, e, is_absent-snoc v n u z)

are_absent-snoc :
    (us : List ℕ) (n u : ℕ) (z : SortedSet ℕ)
    → are_absent us z ≡ true
    → contains u us ≡ false
    → are_absent us (z ++ (n, u) ∷ []) ≡ true
are_absent-snoc [] n u z h e = refl
are_absent-snoc (v ∷ us) n u z h e =
    ground (arith, h, e, are_absent-snoc us n u z, is_absent-snoc v n u z)

is_below-snoc :
    (n u m : ℕ) (z : SortedSet ℕ)
    → is_below m z ≡ true
    → leb m n ≡ true
    → is_below n (z ++ (n, u) ∷ []) ≡ true
is_below-snoc n u m [] h e = ground arith
is_below-snoc n u m ((s, j) ∷ z) h e = ground (arith, h, e, is_below-snoc n u m z)

restored_queue-numbered :
    (m : ℕ) (us : List ℕ) (z : SortedSet ℕ)
    → is_below m z ≡ true
    → are_absent us z ≡ true
    → are_distinct us ≡ true
    → restored_queue (m + 1) us z ≡ z ++ numbered (m + 1) us
unfolding restored_queue
restored_queue-numbered m [] z b a d = sym (append_nil z)
restored_queue-numbered m (u ∷ us) z b a d =
    let absent = (and_true (is_absent u z) (are_absent us z) a).0 in
    let once = not-true (contains u us) (and_true (not (contains u us)) (are_distinct us) d).0 in
    let last = z ++ (m + 1, u) ∷ [] in
    ap (λ y. restored_queue (m + 1 + 1) us (zinsert {K = ℕ} (m + 1) u y)) (zrem-absent u z absent)
    ∙ ap (λ y. restored_queue (m + 1 + 1) us y) (zinsert-last m (m + 1) u z (ground arith) b)
    ∙ restored_queue-numbered (m + 1) us last (is_below-snoc (m + 1) u m z b (ground arith))
        (are_absent-snoc us (m + 1) u z (and_true (is_absent u z) (are_absent us z) a).1 once)
        (and_true (not (contains u us)) (are_distinct us) d).1
    ∙ append_assoc z (m + 1) u (numbered (m + 1 + 1) us)

are_absent-nil : (us : List ℕ) → are_absent us [] ≡ true
are_absent-nil [] = refl
are_absent-nil (u ∷ us) = are_absent-nil us

leads-numbered : (n u k : ℕ) (us : List ℕ) → ltb n k ≡ true → leads n u (numbered k us) ≡ true
leads-numbered n u k [] h = refl
leads-numbered n u k (v ∷ us) h = ground (arith, h, leads-numbered n u (k + 1) us)

is_absent-numbered :
    (u k : ℕ) (us : List ℕ) → contains u us ≡ false → is_absent u (numbered k us) ≡ true
is_absent-numbered u k [] h = refl
is_absent-numbered u k (v ∷ us) h = ground (arith, h, is_absent-numbered u (k + 1) us)

is_queue-numbered : (n : ℕ) (us : List ℕ) → are_distinct us ≡ true → is_queue (numbered n us) ≡ true
is_queue-numbered n [] d = refl
is_queue-numbered n (u ∷ us) d =
    let once = not-true (contains u us) (and_true (not (contains u us)) (are_distinct us) d).0 in
    rw
      (
        leads-numbered n u (n + 1) us (ground arith),
        is_absent-numbered u (n + 1) us once,
        is_queue-numbered (n + 1) us (and_true (not (contains u us)) (are_distinct us) d).1,
      )
      refl

is_below-numbered :
    (m n : ℕ) (us : List ℕ) → n + length us ≤ m + 1 → is_below m (numbered n us) ≡ true
is_below-numbered m n [] h = refl
is_below-numbered m n (u ∷ us) h = ground (arith, h, is_below-numbered m (n + 1) us)

-- Recovery of a product whose users differ leaves the queue that the list describes: exactly its users,
-- in its order, with the scores 1, 2, … and the counter of entries at the last of them, so that the
-- next to enter stands behind them.
pub restore_product_state_script-numbered :
    (p product_count available : ℕ) (us : List ℕ) (c : Cache)
    → are_distinct us ≡ true
    → let c' = restore_product_state_script p product_count available us c in
      (c'.queues p ≡ numbered 1 us) × (c'.seqs p ≡ length us) × IsFair p c'
unfolding restore_product_state_script
restore_product_state_script-numbered p product_count available us c d =
    let queue = restored_queue-numbered 0 us [] refl (are_absent-nil us) d in
    rw (==_refl p) (
      queue,
      refl,
      record {
        in_order = rw (==_refl p) (ap is_queue queue ∙ is_queue-numbered 1 us d);
        counted =
            rw (==_refl p)
              (ap (is_below (length us)) queue ∙ is_below-numbered (length us) 1 us (omega arith));
      },
    )
