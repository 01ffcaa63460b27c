-- ===== src/Prelude/Eff.antt =====
-- Fallible calls on a state of any type: the state after the call is there also when it fails.
pub mod Keeps
use mobile_db.Prelude.Exec.{Failure, Result, ok, err}

abbrev pub Eff : Type 0 → Type 0 → Type 0
Eff S A = S → Result A × S

abbrev pub value_or : {A : Type 0} → A → Result A → A
value_or a (ok b) = b
value_or a (err e) = a

module _ {S A : Type 0} where
  abbrev pub return : A → Eff S A
  return a s = (ok a, s)

  abbrev pub fail : Failure → Eff S A
  fail e s = (err e, s)

  -- A call whose error the caller drops, `_ = f()`.
  abbrev pub ignore : Eff S A → Eff S (Unit {0})
  ignore m s = (ok tt, (m s).1)

  -- `v, _ := f()` for a call that returns `a` with its error
  abbrev pub try_or : A → Eff S A → Eff S A
  try_or a m s = (ok (value_or a (m s).0), (m s).1)

module _ {S A B : Type 0} where
  abbrev pub resume : Result A → (A → Eff S B) → Eff S B
  resume (ok a) f s = f a s
  resume (err e) f s = (err e, s)

  infixl 5 ◌>>=◌ ◌>>◌
  abbrev pub ◌>>=◌ : Eff S A → (A → Eff S B) → Eff S B
  ◌>>=◌ m f s = resume (m s).0 f (m s).1

  abbrev pub ◌>>◌ : Eff S A → Eff S B → Eff S B
  m >> n = m >>= λ _. n
