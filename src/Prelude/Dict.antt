-- ===== src/Prelude/Dict.antt =====
-- Go maps as association lists with distinct keys. A loop over a map visits its entries in an
-- order that the language leaves open: `MapOrder` is the order of a run.
use mathlib.Core.Path.{◌≡◌, refl, ap, ◌∙◌}
use mathlib.Core.Logic.{◌⊎◌, inl, inr}
use mathlib.Core.Bool.{Bool, true, false}
use mathlib.Core.Option.{Option, none, some}
use mathlib.Core.Option
use mathlib.Core.List.{List, [], ◌∷◌, Memᴰ, Permᴰ}
use mathlib.Core.List.Memᴰ.{head, tail}
use mathlib.Core.List.Permᴰ.{nil, cons, swap, trans}
use native.Mathlib.Omega.{arith}
use mobile_db.Prelude.Tests.{Comparable, ◌==◌, if◌then◌else◌}

abbrev pub Dict {ℓ} : Type ℓ → Type ℓ → Type ℓ
Dict K V = List (K × V)

module _ {ℓ} {K V : Type ℓ} ⦃e : Comparable K⦄ where
  -- `m[k]` with its second result
  unfoldable pub get : Dict K V → K → Option V
  get [] k = none
  get ((j, v) ∷ m) k = if j == k then some v else get m k

  -- `m[k] = v`
  unfoldable pub put : Dict K V → K → V → Dict K V
  put [] k v = (k, v) ∷ []
  put ((j, w) ∷ m) k v = if j == k then (j, v) ∷ m else (j, w) ∷ put m k v

  -- `delete(m, k)`
  unfoldable pub remove : Dict K V → K → Dict K V
  remove [] k = []
  remove ((j, w) ∷ m) k = let rest = remove m k in if j == k then rest else (j, w) ∷ rest

  pub get-put :
      (m : Dict K V) (k : K) (v : V) (j : K)
      → get (put m k v) j ≡ (if k == j then some v else get m j)
  unfolding get put
  get-put [] k v j = refl
  get-put ((i, w) ∷ m) k v j =
      ground (arith, e.equals_iff k j, e.equals_iff i k, e.equals_iff i j, get-put m k v j)

  pub get-remove :
      (m : Dict K V) (k : K) (j : K) → get (remove m k) j ≡ (if k == j then none else get m j)
  unfolding get remove
  get-remove [] k j = ground arith
  get-remove ((i, w) ∷ m) k j =
      ground (arith, e.equals_iff k j, e.equals_iff i k, e.equals_iff i j, get-remove m k j)

  pub get-put_self : (m : Dict K V) (k : K) (v : V) → get (put m k v) k ≡ some v
  get-put_self m k v = ground (arith, get-put m k v k, e.equals_iff k k)

  pub get-remove_self : (m : Dict K V) (k : K) → get (remove m k) k ≡ none
  get-remove_self m k = ground (arith, get-remove m k k, e.equals_iff k k)

  -- No key twice.
  abbrev pub Unique : Dict K V → Type ℓ
  Unique [] = Unit
  Unique ((k, v) ∷ m) = (get m k ≡ none) × Unique m

  pub put-Unique : (m : Dict K V) (k : K) (v : V) → Unique m → Unique (put m k v)
  unfolding put get
  put-Unique [] k v u = (refl, tt)
  put-Unique ((j, w) ∷ m) k v u =
      ground (arith, e.equals_iff j k, e.equals_iff k j, get-put m k v j, put-Unique m k v u.1)

  mem_hit :
      (b : Bool) {k j : K} {v w : V} (m : Dict K V)
      → (b ≡ true → j ≡ k)
      → (if b then some w else get m k) ≡ some v
      → (Memᴰ (k, v) ((j, w) ∷ m)) ⊎ (get m k ≡ some v)
  mem_hit true m eq h = inl (head (ground (arith, eq refl)))
  mem_hit false m eq h = inr h

  -- What a lookup returns is an entry, and with distinct keys every entry is found.
  pub mem_of_get : (m : Dict K V) (k : K) {v : V} → get m k ≡ some v → Memᴰ (k, v) m
  unfolding get
  mem_of_get [] k h = cc
  mem_of_get ((j, w) ∷ m) k h = elim (mem_hit (j == k) m (e.equals_iff j k).0 h) [
    | inl found ↦ found
    | inr later ↦ tail (mem_of_get m k later)
  ]

  pub get_of_mem : (m : Dict K V) (k : K) {v : V} → Unique m → Memᴰ (k, v) m → get m k ≡ some v
  unfolding get
  get_of_mem [] k u h = elim h [ ]
  get_of_mem ((j, w) ∷ m) k {v} u (head q) =
      ground (arith, e.equals_iff j k, ap (λ (p : K × V). p.0) q, ap (λ (p : K × V). p.1) q)
  get_of_mem ((j, w) ∷ m) k u (tail h) = ground (arith, e.equals_iff j k, get_of_mem m k u.1 h)

  pub get-Permᴰ : {l m : Dict K V} → Permᴰ l m → Unique m → Unique l × ((k : K) → get l k ≡ get m k)
  unfolding get
  get-Permᴰ nil u = (tt, λ k. refl)
  get-Permᴰ (cons {a} {b} q p) u =
      let r = get-Permᴰ p u.1 in ((rw (q, r.1 b.0) u.0, r.0), λ k. rw (q, r.1 k))
  get-Permᴰ (swap {a} {b} {a'} {b'} {l} q q') u =
      rw (q, q')
        (
          ground (arith, e.equals_iff b'.0 a'.0, e.equals_iff a'.0 b'.0),
          λ k. ground (arith, e.equals_iff b'.0 k, e.equals_iff a'.0 k, e.equals_iff b'.0 a'.0),
        )
  get-Permᴰ (trans p p') u =
      let r' = get-Permᴰ p' u in let r = get-Permᴰ p r'.0 in (r.0, λ k. r.1 k ∙ r'.1 k)

-- The order in which a run's loops over a map visit the entries.
pub record MapOrder : Type 1 where
  pub visit : (A : Type 0) → List A → List A
  pub visit_perm : (A : Type 0) (l : List A) → Permᴰ (visit A l) l

abbrev pub or_else {ℓ} : {A : Type ℓ} → Option A → Option A → Option A
or_else none o = o
or_else (some a) o = some a

module _ {ℓ} {K V W : Type ℓ} ⦃e : Comparable K⦄ (f : V → W) where
  -- `for k, v := range m { out[k] = f(v) }`, over the entries in the order visited
  unfoldable pub copy_into : Dict K W → List (K × V) → Dict K W
  copy_into out [] = out
  copy_into out ((k, v) ∷ es) = copy_into (put out k (f v)) es

  pub get-copy_into :
      (out : Dict K W) (es : List (K × V)) (k : K)
      → Unique es
      → get (copy_into out es) k ≡ or_else (Option.map f (get es k)) (get out k)
  unfolding copy_into get
  get-copy_into out [] k u = refl
  get-copy_into out ((j, v) ∷ es) k u =
      get-copy_into (put out j (f v)) es k u.1
      ∙ ground (arith, get-put out j (f v) k, e.equals_iff j k)

  pub copy_into-Unique :
      (out : Dict K W) (es : List (K × V)) → Unique out → Unique (copy_into out es)
  unfolding copy_into
  copy_into-Unique out [] u = u
  copy_into-Unique out ((k, v) ∷ es) u =
      copy_into-Unique (put out k (f v)) es (put-Unique out k (f v) u)

or_else-none {ℓ} : {A : Type ℓ} (o : Option A) → or_else o none ≡ o
or_else-none none = refl
or_else-none (some a) = refl

-- A copy of a map has, at each key, the image of what the map has, whatever the order.
pub get_copy :
    {K A B : Type 0} ⦃e : Comparable K⦄ (o : MapOrder) (g : A → B) (m : Dict K A) (k : K)
    → Unique m
    → get (copy_into g [] (o.visit (K × A) m)) k ≡ Option.map g (get m k)
unfolding get
get_copy {K} {A} o g m k u =
    let (u', same) = get-Permᴰ (o.visit_perm (K × A) m) u in
    get-copy_into g [] (o.visit (K × A) m) k u'
    ∙ rw (same k) (or_else-none (Option.map g (get m k)))
