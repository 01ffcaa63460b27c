-- ===== src/Prelude/Lists.antt =====
-- Lists: lengths by native numbers, selection by a Boolean test, and predicates by recursion.
use Prim.Native.Nat.{ℕ, suc, ◌+◌}
use mathlib.Core.Path.{◌≡◌, refl, ap}
use mathlib.Core.Logic.{◌⊎◌, inl, inr}
use mathlib.Core.Bool.{Bool, true, false}
use mathlib.Core.List.{List, [], ◌∷◌, ◌++◌, map, Memᴰ}
use mathlib.Core.List.Memᴰ.{head, tail}
use native.Mathlib.Omega.{arith}
use mobile_db.Prelude.Tests.{if◌then◌else◌}

module _ {ℓ} {A : Type ℓ} where
  abbrev pub length : List A → ℕ
  length [] = 0
  length (x ∷ xs) = suc (length xs)

  pub length-append : (xs ys : List A) → length (xs ++ ys) ≡ length xs + length ys
  length-append [] ys = omega arith
  length-append (x ∷ xs) ys = omega (arith, length-append xs ys)

  -- The elements that pass a test, in order.
  unfoldable pub select : (A → Bool) → List A → List A
  select p [] = []
  select p (x ∷ xs) = let rest = select p xs in if p x then x ∷ rest else rest

  abbrev pub All {κ} : (A → Type κ) → List A → Type κ
  All P [] = Unit
  All P (x ∷ xs) = P x × All P xs

  pub All-mem {κ} : (P : A → Type κ) (xs : List A) → ((x : A) → Memᴰ x xs → P x) → All P xs
  All-mem P [] h = tt
  All-mem P (x ∷ xs) h = (h x (head refl), All-mem P xs (λ y m. h y (tail m)))

  pub mem-All {κ} : (P : A → Type κ) (xs : List A) → All P xs → {x : A} → Memᴰ x xs → P x
  mem-All P [] h m = elim m [ ]
  mem-All P (y ∷ ys) h (head e) = rw e h.0
  mem-All P (y ∷ ys) h (tail m) = mem-All P ys h.1 m

  mem_keep :
      (b : Bool) {x y : A} {zs : List A}
      → Memᴰ x (if b then y ∷ zs else zs)
      → ((x ≡ y) × (b ≡ true)) ⊎ Memᴰ x zs
  mem_keep true (head e) = inl (e, refl)
  mem_keep true (tail m) = inr m
  mem_keep false m = inr m

  keep_head :
      (b : Bool) {x y : A} (zs : List A) → b ≡ true → x ≡ y → Memᴰ x (if b then y ∷ zs else zs)
  keep_head true zs h e = head e
  keep_head false zs h e = cc

  keep_tail :
      (b : Bool) {x : A} (y : A) {zs : List A} → Memᴰ x zs → Memᴰ x (if b then y ∷ zs else zs)
  keep_tail true y m = tail m
  keep_tail false y m = m

  -- What is selected is an element that passes the test, and every such element is selected.
  pub mem-select :
      (p : A → Bool) (xs : List A) {x : A} → Memᴰ x (select p xs) → Memᴰ x xs × (p x ≡ true)
  unfolding select
  mem-select p [] m = elim m [ ]
  mem-select p (y ∷ ys) m = elim (mem_keep (p y) m) [
    | inl (e, h) ↦ (head e, rw e h)
    | inr m' ↦ let r = mem-select p ys m' in (tail r.0, r.1)
  ]

  pub mem_of_select :
      (p : A → Bool) (xs : List A) {x : A} → Memᴰ x xs → p x ≡ true → Memᴰ x (select p xs)
  unfolding select
  mem_of_select p [] m h = elim m [ ]
  mem_of_select p (y ∷ ys) (head e) h = keep_head (p y) (select p ys) (rw e at h) e
  mem_of_select p (y ∷ ys) (tail m) h = keep_tail (p y) y (mem_of_select p ys m h)

pub mem-map :
    {A B : Type 0} (f : A → B) (xs : List A) {y : B}
    → Memᴰ y (map f xs)
    → (x : A) × Memᴰ x xs × (y ≡ f x)
mem-map f [] m = elim m [ ]
mem-map f (x ∷ xs) (head e) = (x, head refl, e)
mem-map f (x ∷ xs) (tail m) = let (z, mz, e) = mem-map f xs m in (z, tail mz, e)

pub mem_of_map :
    {A B : Type 0} (f : A → B) (xs : List A) {x : A} → Memᴰ x xs → Memᴰ (f x) (map f xs)
mem_of_map f [] m = elim m [ ]
mem_of_map f (x ∷ xs) (head e) = head (ap f e)
mem_of_map f (x ∷ xs) (tail m) = tail (mem_of_map f xs m)
