-- ===== src/Crdt/Merge/Picks.antt =====
-- The winner of one field, by a single pass over the operations, and what that pass finds.
use mobile_db.Prelude.{
  if◌then◌else◌, Bool-cases, ◌==◌, nat_eq, pair_eq, ℤ_eq, Str, str_eq_inst, All, ◌≡◌, refl, sym,
  ◌∙◌, ◌⊎◌, inl, inr, Bool, true, false, ◌&&◌, Option, none, some, List, [], ◌∷◌, Memᴰ, arith,
}
use mathlib.Core.Option.{some-injective}
use mathlib.Core.List.Memᴰ.{head, tail}
use mobile_db.Core.{Hlc, CrdtOp}
use mobile_db.Crdt.Hlc.{before}
use mobile_db.Crdt.Hlc.Order.{before_trans, before_trichotomy, before_irrefl}
use mobile_db.Crdt.Merge.{replaces}

pub not-before_trans : (a b c : Hlc) → before a b ≡ false → before b c ≡ false → before a c ≡ false
not-before_trans a b c h k =
    ground (arith, before_trichotomy a b, before_trichotomy b c, before_trans a c b)

module _ {V : Type 0} (d f : Str) where
  -- The operation writes field `f` of document `d`.
  abbrev pub hits : CrdtOp V → Bool
  hits op = op.doc_id == d && op.field == f

  -- The last operation, in the order of time, that writes the field, starting from `cur`.
  unfoldable pub pick : Option (CrdtOp V) → List (CrdtOp V) → Option (CrdtOp V)
  pick cur [] = cur
  pick cur (op ∷ ops) = pick (if hits op && replaces cur op then some op else cur) ops

  pub record Picked (cur : Option (CrdtOp V)) (ops : List (CrdtOp V)) (w : CrdtOp V) : Type 0 where
    pub origin : (cur ≡ some w) ⊎ (Memᴰ w ops × (hits w ≡ true))
    pub latest :
        All (λ (op : CrdtOp V). hits op ≡ true → before w.timestamp op.timestamp ≡ false) ops
    pub start : (c : CrdtOp V) → cur ≡ some c → before w.timestamp c.timestamp ≡ false

  step_cur : Option (CrdtOp V) → CrdtOp V → Option (CrdtOp V)
  step_cur cur op = if hits op && replaces cur op then some op else cur

  moved :
      {a b : Option (CrdtOp V)} {w : CrdtOp V} {P : Type 0}
      → a ≡ b
      → (a ≡ some w) ⊎ P
      → (b ≡ some w) ⊎ P
  moved e (inl q) = inl (sym e ∙ q)
  moved e (inr p) = inr p

  found :
      {op w : CrdtOp V} {ops : List (CrdtOp V)}
      → hits op ≡ true
      → (some op ≡ some w) ⊎ (Memᴰ w ops × (hits w ≡ true))
      → Memᴰ w (op ∷ ops) × (hits w ≡ true)
  found {op} {w} h (inl q) = let e = some-injective op w q in (head (sym e), rw e at h)
  found h (inr (m, h')) = (tail m, h')

  later :
      {cur : Option (CrdtOp V)} {op w : CrdtOp V} {ops : List (CrdtOp V)}
      → (cur ≡ some w) ⊎ (Memᴰ w ops × (hits w ≡ true))
      → (cur ≡ some w) ⊎ (Memᴰ w (op ∷ ops) × (hits w ≡ true))
  later (inl q) = inl q
  later (inr (m, h)) = inr (tail m, h)

  Picked-replaced :
      (cur : Option (CrdtOp V)) (op : CrdtOp V) (ops : List (CrdtOp V)) (w : CrdtOp V)
      → hits op ≡ true
      → ((c : CrdtOp V) → cur ≡ some c → before c.timestamp op.timestamp ≡ true)
      → Picked (some op) ops w
      → Picked cur (op ∷ ops) w
  Picked-replaced cur op ops w h newer p = record {
    origin = inr (found h p.origin);
    latest = (λ _. p.start op refl, p.latest);
    start = λ c q.
        ground
          (arith, newer c q, p.start op refl, before_trans w.timestamp c.timestamp op.timestamp);
  }

  Picked-kept :
      (cur : Option (CrdtOp V)) (op : CrdtOp V) (ops : List (CrdtOp V)) (w : CrdtOp V)
      → (hits op ≡ true → before w.timestamp op.timestamp ≡ false)
      → Picked cur ops w
      → Picked cur (op ∷ ops) w
  Picked-kept cur op ops w k p = record {
    origin = later p.origin;
    latest = (k, p.latest);
    start = p.start;
  }

  Picked-step :
      (cur : Option (CrdtOp V)) (op : CrdtOp V) (ops : List (CrdtOp V)) (w : CrdtOp V)
      → Picked (step_cur cur op) ops w
      → Picked cur (op ∷ ops) w
  unfolding step_cur replaces
  Picked-step none op ops w p = elim (Bool-cases (hits op)) [
    | inl e ↦ Picked-replaced none op ops w e (λ c q. cc) (rw e at p)
    | inr e ↦ Picked-kept none op ops w (λ h. cc) (rw e at p)
  ]
  Picked-step (some c) op ops w p = elim (Bool-cases (hits op)) [
    | inr e ↦ Picked-kept (some c) op ops w (λ h. cc) (rw e at p)
    | inl e ↦ elim (Bool-cases (before c.timestamp op.timestamp)) [
      | inl b ↦
          Picked-replaced (some c) op ops w e (λ c' q. rw (← some-injective c c' q) b)
            (rw (e, b) at p)
      | inr b ↦
          let p' : Picked (some c) ops w = rw (e, b) at p in
          Picked-kept (some c) op ops w
            (λ _. not-before_trans w.timestamp c.timestamp op.timestamp (p'.start c refl) b) p'
    ]
  ]

  pub pick-Picked :
      (cur : Option (CrdtOp V)) (ops : List (CrdtOp V)) (w : CrdtOp V)
      → pick cur ops ≡ some w
      → Picked cur ops w
  unfolding pick step_cur
  pick-Picked cur [] w h = record {
    origin = inl h;
    latest = tt;
    start = λ c e. ground (arith, before_irrefl w.timestamp);
  }
  pick-Picked cur (op ∷ ops) w h = Picked-step cur op ops w (pick-Picked (step_cur cur op) ops w h)

  -- Once some operation writes the field, there is a winner.
  pub pick-some :
      (c : CrdtOp V) (ops : List (CrdtOp V)) → (w : CrdtOp V) × (pick (some c) ops ≡ some w)
  unfolding pick
  pick-some c [] = (c, refl)
  pick-some c (op ∷ ops) = elim (Bool-cases (hits op && replaces (some c) op)) [
    | inl e ↦ rw e (pick-some op ops)
    | inr e ↦ rw e (pick-some c ops)
  ]

  pub pick-none : (ops : List (CrdtOp V)) → pick none ops ≡ none → All (λ op. hits op ≡ false) ops
  unfolding pick replaces
  pick-none [] h = tt
  pick-none (op ∷ ops) h = elim (Bool-cases (hits op)) [
    | inl e ↦ let r = pick-some op ops in cc (r.1, rw e at h)
    | inr e ↦ (e, pick-none ops (rw e at h))
  ]
