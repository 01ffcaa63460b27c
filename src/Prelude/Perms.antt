-- ===== src/Prelude/Perms.antt =====
-- Permutations and the elements that pass a test.
use mathlib.Core.Path.{subst, ◌≡◌, refl, sym, ap, ◌∙◌}
use mathlib.Core.Bool.{Bool, false}
use mathlib.Core.Logic.{inl, inr}
use mathlib.Core.List.Permᴰ
use mathlib.Core.List.{List, [], ◌∷◌, Memᴰ, Permᴰ}
use mathlib.Core.List.Memᴰ.{head, tail, cases_cons}
use mathlib.Core.List.Permᴰ.{nil, cons, swap, trans}
use Prim.Native.Nat.{ℕ, ◌≤◌}
use native.Mathlib.Omega.{arith}
use mobile_db.Prelude.Tests.{Bool-cases, ◌==◌, nat_eq}
use mobile_db.Prelude.Lists.{select, All, mem-All}
use mobile_db.Prelude.Rows.{length-Permᴰ, Falling}

module _ {ℓ} {A : Type ℓ} where
  pub mem-Permᴰ : {l m : List A} {x : A} → Permᴰ l m → Memᴰ x l → Memᴰ x m
  mem-Permᴰ nil m = m
  mem-Permᴰ (cons q r) (head e) = head (e ∙ q)
  mem-Permᴰ (cons q r) (tail m) = tail (mem-Permᴰ r m)
  mem-Permᴰ (swap q q') (head e) = tail (head (e ∙ q))
  mem-Permᴰ (swap q q') (tail (head e)) = head (e ∙ q')
  mem-Permᴰ (swap q q') (tail (tail m)) = tail (tail m)
  mem-Permᴰ (trans r r') m = mem-Permᴰ r' (mem-Permᴰ r m)

  pub select-Permᴰ : (p : A → Bool) {l m : List A} → Permᴰ l m → Permᴰ (select p l) (select p m)
  unfolding select
  select-Permᴰ p nil = nil
  select-Permᴰ p (cons {a} {b} q r) = elim (Bool-cases (p b)) [
    | inl e ↦ rw (q, e) (cons refl (select-Permᴰ p r))
    | inr e ↦ rw (q, e) (select-Permᴰ p r)
  ]
  select-Permᴰ p (swap {a} {b} {a'} {b'} {l} q q') = elim (Bool-cases (p b')) [
    | inl e ↦ elim (Bool-cases (p a')) [
      | inl e' ↦ rw (q, q', e, e') (swap refl refl)
      | inr e' ↦ rw (q, q', e, e') (cons refl (Permᴰ.refl (select p l)))
    ]
    | inr e ↦ elim (Bool-cases (p a')) [
      | inl e' ↦ rw (q, q', e, e') (cons refl (Permᴰ.refl (select p l)))
      | inr e' ↦ rw (q, q', e, e') (Permᴰ.refl (select p l))
    ]
  ]
  select-Permᴰ p (trans r r') = trans (select-Permᴰ p r) (select-Permᴰ p r')

  -- A permutation of at most one element.
  pub Permᴰ-none : (l : List A) → Permᴰ l [] → l ≡ []
  Permᴰ-none [] r = refl
  Permᴰ-none (x ∷ l) r = absurd (omega (arith, length-Permᴰ r))

  pub Permᴰ-one : (l : List A) (a : A) → Permᴰ l (a ∷ []) → l ≡ a ∷ []
  Permᴰ-one [] a r = absurd (omega (arith, length-Permᴰ r))
  Permᴰ-one (x ∷ []) a r = elim (cases_cons (mem-Permᴰ r (head refl))) [
    | inl q ↦ ap (λ y. y ∷ []) q
    | inr m ↦ elim m [ ]
  ]
  Permᴰ-one (x ∷ y ∷ l) a r = absurd (omega (arith, length-Permᴰ r))

module _ {A : Type 0} where
  All-Permᴰ : (P : A → Type 0) {l m : List A} → Permᴰ l m → All P m → All P l
  All-Permᴰ P nil h = h
  All-Permᴰ P (cons q r) h = (rw q h.0, All-Permᴰ P r h.1)
  All-Permᴰ P (swap q q') h = (rw q h.1.0, (rw q' h.0, h.1.1))
  All-Permᴰ P (trans r r') h = All-Permᴰ P r (All-Permᴰ P r' h)

  -- No two elements with one key.
  abbrev pub DistinctKeys : (A → ℕ) → List A → Type 0
  DistinctKeys key [] = Unit
  DistinctKeys key (x ∷ xs) = All (λ y. (key x == key y) ≡ false) xs × DistinctKeys key xs

  pub Permᴰ-DistinctKeys :
      (key : A → ℕ) {l m : List A} → Permᴰ l m → DistinctKeys key m → DistinctKeys key l
  Permᴰ-DistinctKeys key nil h = h
  Permᴰ-DistinctKeys key (cons {a} {b} q r) h =
      (rw q (All-Permᴰ (λ y. (key b == key y) ≡ false) r h.0), Permᴰ-DistinctKeys key r h.1)
  Permᴰ-DistinctKeys key (swap {a} {b} {a'} {b'} {l} q q') h =
      let apart : (key b' == key a') ≡ false =
        ground (
          arith,
          h.0.0,
          nat_eq.equals_iff (key a') (key b'),
          nat_eq.equals_iff (key b') (key a'),
        ) in
      let far = λ (w : A). All (λ y. (key w == key y) ≡ false) l in
      ((rw (q, q') apart, subst far (sym q) h.1.0), (subst far (sym q') h.0.1, h.1.1))
  Permᴰ-DistinctKeys key (trans r r') h = Permᴰ-DistinctKeys key r (Permᴰ-DistinctKeys key r' h)

  apart_in :
      (key : A → ℕ) {x z : A} (xs : List A)
      → All (λ y. (key x == key y) ≡ false) xs
      → Memᴰ z xs
      → key x ≡ key z
      → ⊥
  apart_in key {x} {z} xs h m e =
      ground (
        arith,
        mem-All (λ y. (key x == key y) ≡ false) xs h m,
        nat_eq.equals_iff (key x) (key z),
        e,
      )

  same_head :
      (key : A → ℕ) (x y : A) (xs ys : List A)
      → Falling key (x ∷ xs)
      → Falling key (y ∷ ys)
      → DistinctKeys key (x ∷ xs)
      → Memᴰ x (y ∷ ys)
      → Memᴰ y (x ∷ xs)
      → x ≡ y
  same_head key x y xs ys f f' d m m' = elim (cases_cons m) [
    | inl e ↦ e
    | inr later ↦ elim (cases_cons m') [
      | inl e ↦ sym e
      | inr later' ↦
          let below = mem-All (λ z. key z ≤ key y) ys f'.0 later in
          let below' = mem-All (λ z. key z ≤ key x) xs f.0 later' in
          absurd (apart_in key xs d.0 later' (omega (arith, below, below')))
    ]
  ]

  tail_mem :
      (key : A → ℕ) (x y : A) (xs ys : List A) {z : A}
      → x ≡ y
      → DistinctKeys key (x ∷ xs)
      → Memᴰ z xs
      → Memᴰ z (y ∷ ys)
      → Memᴰ z ys
  tail_mem key x y xs ys e d m m' = elim (cases_cons m') [
    | inl q ↦ absurd (apart_in key xs d.0 m (ap key (e ∙ sym q)))
    | inr later ↦ later
  ]

  -- Two falling lists of the same elements are one list when no two elements have one key.
  pub Falling-same :
      (key : A → ℕ) (l m : List A)
      → Falling key l
      → Falling key m
      → DistinctKeys key l
      → DistinctKeys key m
      → ((x : A) → Memᴰ x l → Memᴰ x m)
      → ((x : A) → Memᴰ x m → Memᴰ x l)
      → l ≡ m
  Falling-same key [] [] f f' d d' to from = refl
  Falling-same key [] (y ∷ ys) f f' d d' to from = elim (from y (head refl)) [ ]
  Falling-same key (x ∷ xs) [] f f' d d' to from = elim (to x (head refl)) [ ]
  Falling-same key (x ∷ xs) (y ∷ ys) f f' d d' to from =
      let e = same_head key x y xs ys f f' d (to x (head refl)) (from y (head refl)) in
      let rest =
        Falling-same key xs ys f.1 f'.1 d.1 d'.1
          (λ z m. tail_mem key x y xs ys e d m (to z (tail m)))
          (λ z m. tail_mem key y x ys xs (sym e) d' m (from z (tail m))) in
      rw (e, rest) refl
