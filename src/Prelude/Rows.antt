-- ===== src/Prelude/Rows.antt =====
-- The rows of a query: pages of them, and an order that `ORDER BY … DESC` may return them in.
use Prim.Native.Nat.{ℕ, zero, suc, ◌+◌, ◌-◌, ◌≤◌}
use mathlib.Core.Path.{◌≡◌, refl, ap, ◌∙◌}
use mathlib.Core.Bool.{Bool}
use mathlib.Core.List.{List, [], ◌∷◌, ◌++◌, map, Permᴰ}
use mathlib.Core.List.Permᴰ.{nil, cons, swap, trans}
use native.Mathlib.Omega.{arith}
use mobile_db.Prelude.Lists.{length, select, All}

suc_plus : (m n : ℕ) → suc m + n ≡ suc (m + n)
suc_plus m n = omega arith

module _ {ℓ} {A : Type ℓ} where
  unfoldable pub take : ℕ → List A → List A
  take zero xs = []
  take (suc n) [] = []
  take (suc n) (x ∷ xs) = x ∷ take n xs

  unfoldable pub drop : ℕ → List A → List A
  drop zero xs = xs
  drop (suc n) [] = []
  drop (suc n) (x ∷ xs) = drop n xs

  pub length-take : (n : ℕ) (xs : List A) → length (take n xs) ≤ n
  unfolding take
  length-take zero xs = omega arith
  length-take (suc n) [] = omega arith
  length-take (suc n) (x ∷ xs) = omega (arith, length-take n xs)

  pub length-take_le : (n : ℕ) (xs : List A) → length (take n xs) ≤ length xs
  unfolding take
  length-take_le zero xs = omega arith
  length-take_le (suc n) [] = omega arith
  length-take_le (suc n) (x ∷ xs) = omega (arith, length-take_le n xs)

  pub length-take_all : (n : ℕ) (xs : List A) → length xs ≤ n → length (take n xs) ≡ length xs
  unfolding take
  length-take_all zero [] h = refl
  length-take_all zero (x ∷ xs) h = absurd (omega (arith, h))
  length-take_all (suc n) [] h = refl
  length-take_all (suc n) (x ∷ xs) h = ap suc (length-take_all n xs (omega arith))

  pub length-take_full : (n : ℕ) (xs : List A) → n ≤ length xs → length (take n xs) ≡ n
  unfolding take
  length-take_full zero xs h = refl
  length-take_full (suc n) [] h = absurd (omega (arith, h))
  length-take_full (suc n) (x ∷ xs) h = ap suc (length-take_full n xs (omega arith))

  pub length-select : (p : A → Bool) (xs : List A) → length (select p xs) ≤ length xs
  unfolding select
  length-select p [] = omega arith
  length-select p (x ∷ xs) = ground (arith, length-select p xs)

  pub length-drop : (n : ℕ) (xs : List A) → length (drop n xs) ≡ length xs - n
  unfolding drop
  length-drop zero xs = omega arith
  length-drop (suc n) [] = omega arith
  length-drop (suc n) (x ∷ xs) = omega (arith, length-drop n xs)

  pub take_all : (n : ℕ) (xs : List A) → length xs ≤ n → take n xs ≡ xs
  unfolding take
  take_all zero [] h = refl
  take_all zero (x ∷ xs) h = absurd (omega (arith, h))
  take_all (suc n) [] h = refl
  take_all (suc n) (x ∷ xs) h = ap (λ t. x ∷ t) (take_all n xs (omega arith))

  -- The first `m` elements and the `n` after them are the first `m + n`.
  pub take-take : (m n : ℕ) (xs : List A) → take m xs ++ take n (drop m xs) ≡ take (m + n) xs
  unfolding take drop
  take-take zero n xs = ap (λ k. take k xs) (omega arith)
  take-take (suc m) zero [] = rw (suc_plus m zero) refl
  take-take (suc m) (suc n) [] = rw (suc_plus m (suc n)) refl
  take-take (suc m) n (x ∷ xs) = rw (suc_plus m n) (ap (λ t. x ∷ t) (take-take m n xs))

  pub length-Permᴰ : {xs ys : List A} → Permᴰ xs ys → length xs ≡ length ys
  length-Permᴰ nil = refl
  length-Permᴰ (cons e p) = ap suc (length-Permᴰ p)
  length-Permᴰ (swap e e') = refl
  length-Permᴰ (trans p q) = length-Permᴰ p ∙ length-Permᴰ q

  -- No element comes before one with a larger key.
  abbrev pub Falling : (A → ℕ) → List A → Type ℓ
  Falling key [] = Unit
  Falling key (x ∷ xs) = All (λ y. key y ≤ key x) xs × Falling key xs

pub length-map {ℓ κ} :
    {A : Type ℓ} {B : Type κ} (f : A → B) (xs : List A) → length (map f xs) ≡ length xs
length-map f [] = refl
length-map f (x ∷ xs) = ap suc (length-map f xs)

-- `ORDER BY <key> DESC`: the rows, largest key first; the order of equal keys is left open.
pub record RowOrder : Type 1 where
  pub arrange : (A : Type 0) → (A → ℕ) → List A → List A
  pub arrange_perm : (A : Type 0) (key : A → ℕ) (l : List A) → Permᴰ (arrange A key l) l
  pub arrange_falls : (A : Type 0) (key : A → ℕ) (l : List A) → Falling key (arrange A key l)
