-- ===== src/Tests/Orders.antt =====
-- An order of rows: newest first, and rows of one time in the order of the table.
use mobile_db.Prelude.{
  ℕ, ◌≤◌, ltb, if◌then◌else◌, Bool-cases, nat_eq, pair_eq, ℤ_eq, str_eq_inst, All, refl, inl, inr,
  List, [], ◌∷◌, arith,
}
use mobile_db.Prelude.Rows.{Falling, RowOrder}
use mathlib.Core.List.{Permᴰ}
use mathlib.Core.List.Permᴰ
use mathlib.Core.List.Permᴰ.{nil, cons, swap, trans}

abbrev pub insert : {A : Type 0} → (A → ℕ) → A → List A → List A
insert key x [] = x ∷ []
insert key x (y ∷ ys) =
    let rest = insert key x ys in if ltb (key x) (key y) then y ∷ rest else x ∷ y ∷ ys

abbrev pub newest : {A : Type 0} → (A → ℕ) → List A → List A
newest key [] = []
newest key (x ∷ xs) = insert key x (newest key xs)

insert-Permᴰ : {A : Type 0} (key : A → ℕ) (x : A) (xs : List A) → Permᴰ (insert key x xs) (x ∷ xs)
insert-Permᴰ key x [] = Permᴰ.refl (x ∷ [])
insert-Permᴰ key x (y ∷ ys) = elim (Bool-cases (ltb (key x) (key y))) [
  | inl e ↦ rw e (trans (cons refl (insert-Permᴰ key x ys)) (swap refl refl))
  | inr e ↦ rw e (Permᴰ.refl (x ∷ y ∷ ys))
]

pub newest-Permᴰ : {A : Type 0} (key : A → ℕ) (xs : List A) → Permᴰ (newest key xs) xs
newest-Permᴰ key [] = nil
newest-Permᴰ key (x ∷ xs) =
    trans (insert-Permᴰ key x (newest key xs)) (cons refl (newest-Permᴰ key xs))

All-insert :
    {A : Type 0} (key : A → ℕ) (n : ℕ) (x : A) (xs : List A)
    → key x ≤ n
    → All (λ y. key y ≤ n) xs
    → All (λ y. key y ≤ n) (insert key x xs)
All-insert key n x [] h a = (h, tt)
All-insert key n x (y ∷ ys) h (hy, a) = elim (Bool-cases (ltb (key x) (key y))) [
  | inl e ↦ rw e (hy, All-insert key n x ys h a)
  | inr e ↦ rw e (h, (hy, a))
]

All-below :
    {A : Type 0} (key : A → ℕ) (m n : ℕ) (xs : List A)
    → m ≤ n
    → All (λ y. key y ≤ m) xs
    → All (λ y. key y ≤ n) xs
All-below key m n [] h a = tt
All-below key m n (x ∷ xs) h (hx, a) = (omega (arith, h, hx), All-below key m n xs h a)

insert-Falling :
    {A : Type 0} (key : A → ℕ) (x : A) (xs : List A)
    → Falling key xs
    → Falling key (insert key x xs)
insert-Falling key x [] f = (tt, tt)
insert-Falling key x (y ∷ ys) (a, f) = elim (Bool-cases (ltb (key x) (key y))) [
  | inl e ↦ rw e (All-insert key (key y) x ys (ground (arith, e)) a, insert-Falling key x ys f)
  | inr e ↦
      let below : key y ≤ key x = ground (arith, e) in
      rw e ((below, All-below key (key y) (key x) ys below a), (a, f))
]

pub newest-Falling : {A : Type 0} (key : A → ℕ) (xs : List A) → Falling key (newest key xs)
newest-Falling key [] = tt
newest-Falling key (x ∷ xs) = insert-Falling key x (newest key xs) (newest-Falling key xs)

abbrev pub newest_first : RowOrder
newest_first = record {
  arrange = λ A key l. newest key l;
  arrange_perm = λ A key l. newest-Permᴰ key l;
  arrange_falls = λ A key l. newest-Falling key l;
}
