-- ===== src/Models/Result.antt =====
-- A value or an error, and how errors are combined.
pub mod OnOk
use team_10_queue_serivce.Models.{Error, joined}

pub data Result (A : Type 0) : Type 0 where
  ok : A → Result A
  err : Error → Result A

infixl 5 ◌>>=◌
abbrev pub ◌>>=◌ : {A B : Type 0} → Result A → (A → Result B) → Result B
ok a >>= f = f a
err e >>= f = err e

-- errors.Join of an error and what its rollback returned.
abbrev pub with_rollback : Error → Result (Unit {0}) → Error
with_rollback e (ok tt) = e
with_rollback e (err e') = joined e e'

-- errors.Join of two results.
abbrev pub both : Result (Unit {0}) → Result (Unit {0}) → Result (Unit {0})
both (ok tt) r = r
both (err e) (ok tt) = err e
both (err e) (err e') = err (joined e e')
