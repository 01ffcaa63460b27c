-- ===== src/Prelude/Eff/Keeps.antt =====
-- Calls that leave a part of the state as it is, on success and on failure.
use mathlib.Core.Path.{◌≡◌, refl, ◌∙◌}
use mobile_db.Prelude.Exec.{Result, ok, err}
use mobile_db.Prelude.Eff.{Eff, return, resume, ◌>>=◌}

abbrev pub Keeps : {S X A : Type 0} → (S → X) → Eff S A → Type 0
Keeps {S} view m = (s : S) → view (m s).1 ≡ view s

module _ {S X A B : Type 0} (view : S → X) where
  Keeps-resume :
      (r : Result A) (f : A → Eff S B) (s : S)
      → ((a : A) → Keeps view (f a))
      → view (resume r f s).1 ≡ view s
  Keeps-resume (ok a) f s k = k a s
  Keeps-resume (err e) f s k = refl

  pub Keeps-bind :
      (m : Eff S A) (f : A → Eff S B)
      → Keeps view m
      → ((a : A) → Keeps view (f a))
      → Keeps view (m >>= f)
  Keeps-bind m f k k' s = Keeps-resume (m s).0 f (m s).1 k' ∙ k s

module _ {S A B : Type 0} where
  -- A sequence that returns a value has had both its parts return one.
  resume-ok :
      (r : Result A) (f : A → Eff S B) (s : S) (b : B)
      → (resume r f s).0 ≡ ok b
      → (a : A) × (r ≡ ok a) × ((f a s).0 ≡ ok b)
  resume-ok (ok a) f s b h = (a, refl, h)
  resume-ok (err e) f s b h = cc

  pub bind-ok :
      (m : Eff S A) (f : A → Eff S B) (s : S) (b : B)
      → ((m >>= f) s).0 ≡ ok b
      → (a : A) × ((m s).0 ≡ ok a) × ((f a (m s).1).0 ≡ ok b)
  bind-ok m f s b h = resume-ok (m s).0 f (m s).1 b h

  -- A last step that only computes leaves the state of the step before it.
  pub state_of_return :
      (m : Eff S A) (g : A → B) (s : S) → ((m >>= λ a. return (g a)) s).1 ≡ (m s).1
  state_of_return m g s = of_result (m s).0 (m s).1
    where
      of_result : (r : Result A) (s' : S) → (resume r (λ a. return (g a)) s').1 ≡ s'
      of_result (ok a) s' = refl
      of_result (err e) s' = refl

pub value_of_ok : {A : Type 0} {a b : A} → ok a ≡ ok b → a ≡ b
value_of_ok h = cc
