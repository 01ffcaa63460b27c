-- ===== src/Prelude/Tests.antt =====
-- Boolean tests, the conditional, and equality tests as an interface.
use Prim.Native.Nat.{ℕ, compare, Ordering}
use mathlib.Core.Path.{◌≡◌, refl, ap}
use mathlib.Core.Logic.{◌↔◌, ◌⊎◌, inl, inr}
use mathlib.Core.Bool.{Bool, true, false, ◌&&◌}
use mathlib.Core.Option.{Option, none, some}
use native.Mathlib.Omega.{arith}

abbrev pub ltb : ℕ → ℕ → Bool
ltb a b = elim (compare a b) [ Ordering.lt ↦ true | _ ↦ false ]

abbrev pub leb : ℕ → ℕ → Bool
leb a b = elim (compare a b) [ Ordering.gt ↦ false | _ ↦ true ]

abbrev pub nat_beq : ℕ → ℕ → Bool
nat_beq a b = elim (compare a b) [ Ordering.eq ↦ true | _ ↦ false ]

infix 1 if◌then◌else◌
abbrev pub if◌then◌else◌ {ℓ} : {A : Type ℓ} → Bool → A → A → A
if true then x else y = x
if false then x else y = y

pub nat_beq_iff : (a b : ℕ) → (nat_beq a b ≡ true) ↔ (a ≡ b)
nat_beq_iff a b = ground arith

pub Bool-cases : (b : Bool) → (b ≡ true) ⊎ (b ≡ false)
Bool-cases true = inl refl
Bool-cases false = inr refl

pub Option-cases {ℓ} : {A : Type ℓ} (o : Option A) → (o ≡ none) ⊎ ((a : A) × (o ≡ some a))
Option-cases none = inl refl
Option-cases (some a) = inr (a, refl)

-- The equality test that Go's `==` makes on a comparable type.
pub record Comparable {ℓ} (A : Type ℓ) : Type ℓ where
  pub equals : A → A → Bool
  pub equals_iff : (a b : A) → (equals a b ≡ true) ↔ (a ≡ b)

-- Go structs of two comparable fields are compared field by field.
abbrev pub pair_beq {ℓ} : {A B : Type ℓ} → Comparable A → Comparable B → A × B → A × B → Bool
pair_beq ea eb p q = ea.equals p.0 q.0 && eb.equals p.1 q.1

pub pair_beq_iff {ℓ} :
    {A B : Type ℓ} (ea : Comparable A) (eb : Comparable B) (p q : A × B)
    → (pair_beq ea eb p q ≡ true) ↔ (p ≡ q)
pair_beq_iff ea eb p q = (
  λ h. ground (arith, ea.equals_iff p.0 q.0, eb.equals_iff p.1 q.1),
  λ h.
      ground
        (arith, ea.equals_iff p.0 q.0, eb.equals_iff p.1 q.1, ap (λ r. r.0) h, ap (λ r. r.1) h),
)

instance abbrev pub pair_eq {ℓ} :
    {A B : Type ℓ} ⦃ea : Comparable A⦄ ⦃eb : Comparable B⦄ → Comparable (A × B)
pair_eq ⦃ea⦄ ⦃eb⦄ = record { equals = pair_beq ea eb; equals_iff = pair_beq_iff ea eb }

instance abbrev pub nat_eq : Comparable ℕ
nat_eq = record { equals = nat_beq; equals_iff = nat_beq_iff }

infix 50 ◌==◌
abbrev pub ◌==◌ {ℓ} : {A : Type ℓ} ⦃c : Comparable A⦄ → A → A → Bool
◌==◌ ⦃c⦄ x y = c.equals x y
