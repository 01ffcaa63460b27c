-- ===== src/Crdt/Merge/Winners.antt =====
-- `Merge` returns the value of the latest write of each field, and so depends on the operations
-- only as a set.
use mathlib.Core.Option
use mathlib.Core.Option.{some-injective}
use mobile_db.Prelude.{
  Option-cases, nat_eq, pair_eq, ℤ_eq, Str, str_eq_iff, str_eq_inst, All, mem-All, ◌≡◌, refl, sym,
  ap, ◌∙◌, ◌⊎◌, inl, inr, true, false, none, some, List, [], ◌∷◌, Memᴰ, arith,
}
use mobile_db.Prelude.Dict.{Dict, get, MapOrder, copy_into, get_copy}
use mobile_db.Core.{CrdtOp}
use mobile_db.Crdt.Hlc.{before}
use mobile_db.Crdt.Hlc.Order.{eq_of_not-before}
use mobile_db.Crdt.Merge.{Wins, collect, values_of, merge, value_at}
use mobile_db.Crdt.Merge.Collect.{WellFormed, collect-WellFormed, value_at-collect}
use mobile_db.Crdt.Merge.Picks.{hits, pick, pick-Picked, pick-none}

module _ {V : Type 0} where
  -- `w` writes the field, and no operation that writes it is later.
  pub record IsWinner (d f : Str) (ops : List (CrdtOp V)) (w : CrdtOp V) : Type 0 where
    pub among : Memᴰ w ops
    pub doc : w.doc_id ≡ d
    pub field : w.field ≡ f
    pub latest :
        (op : CrdtOp V)
        → Memᴰ op ops
        → op.doc_id ≡ d
        → op.field ≡ f
        → before w.timestamp op.timestamp ≡ false

  empty-WellFormed : WellFormed {V = V} []
  unfolding get
  empty-WellFormed = record { docs = tt; fields = λ d m h. cc }

  value_at_empty : (d f : Str) → value_at {W = CrdtOp V} [] d f ≡ none
  unfolding value_at get
  value_at_empty d f = refl

  not_from_none : {w : CrdtOp V} {P : Type 0} → (none ≡ some w) ⊎ P → P
  not_from_none (inl q) = cc
  not_from_none (inr p) = p

  nobody :
      (d f : Str) (ops : List (CrdtOp V))
      → All (λ op. hits d f op ≡ false) ops
      → All (λ op. (op.doc_id ≡ d) → ¬ (op.field ≡ f)) ops
  nobody d f [] a = tt
  nobody d f (op ∷ ops) a = (
    λ e e'. ground (arith, a.0, str_eq_iff op.doc_id d, str_eq_iff op.field f),
    nobody d f ops a.1,
  )

  value_at-values_of :
      (o : MapOrder) (wins : Wins V) (d f : Str)
      → WellFormed wins
      → value_at (values_of o wins) d f ≡ Option.map (λ w. w.value) (value_at wins d f)
  unfolding value_at values_of
  value_at-values_of o wins d f wf =
      let g : Dict Str (CrdtOp V) → Dict Str V =
        λ fields. copy_into (λ (w : CrdtOp V). w.value) [] (o.visit (Str × CrdtOp V) fields) in
      let outer = get_copy o g wins d wf.docs in
      elim (Option-cases (get wins d)) [
        | inl e ↦ rw (outer, e, value_at)
        | inr (fields, e) ↦
            rw (outer, e, value_at) (get_copy o (λ w. w.value) fields f (wf.fields d fields e))
      ]

  -- What `merge` holds at a field is the value of the pick.
  pub value_at-merge :
      (o : MapOrder) (ops : List (CrdtOp V)) (d f : Str)
      → value_at (merge o ops) d f ≡ Option.map (λ w. w.value) (pick d f none ops)
  unfolding merge
  value_at-merge o ops d f =
      value_at-values_of o (collect [] ops) d f (collect-WellFormed [] ops empty-WellFormed)
      ∙ ap (Option.map (λ (w : CrdtOp V). w.value))
          (value_at-collect [] ops d f ∙ rw (value_at_empty d f))

  IsWinner-of_pick :
      (ops : List (CrdtOp V)) (d f : Str) (w : CrdtOp V)
      → pick d f none ops ≡ some w
      → IsWinner d f ops w
  IsWinner-of_pick ops d f w h =
      let p = pick-Picked d f none ops w h in
      let (m, hit) = not_from_none p.origin in
      record {
        among = m;
        doc = ground (arith, str_eq_iff w.doc_id d);
        field = ground (arith, str_eq_iff w.field f);
        latest = λ op mem e e'.
            mem-All (λ x. hits d f x ≡ true → before w.timestamp x.timestamp ≡ false) ops p.latest
              mem (ground (arith, str_eq_iff op.doc_id d, str_eq_iff op.field f));
      }

  -- For every field: either `Merge` has a value there, and it is the value of an operation among
  -- the given ones that writes the field and that no other write of the field is after; or it has
  -- none, and no operation writes the field. The order in which the loops visit the maps plays no
  -- part.
  pub merge_lem :
      (o : MapOrder) (ops : List (CrdtOp V)) (d f : Str)
      → ((w : CrdtOp V) × IsWinner d f ops w × (value_at (merge o ops) d f ≡ some w.value))
        ⊎ ((value_at (merge o ops) d f ≡ none) × All (λ op. (op.doc_id ≡ d) → ¬ (op.field ≡ f)) ops)
  merge_lem o ops d f = elim (Option-cases (pick d f none ops)) [
    | inl e ↦ inr (rw (value_at-merge o ops d f, e), nobody d f ops (pick-none d f ops e))
    | inr (w, e) ↦ inl (w, IsWinner-of_pick ops d f w e, rw (value_at-merge o ops d f, e))
  ]

  -- Operations that write one field at one time write one value.
  abbrev pub NoTies : List (CrdtOp V) → Type 0
  NoTies ops =
      (a b : CrdtOp V)
      → Memᴰ a ops
      → Memᴰ b ops
      → a.doc_id ≡ b.doc_id
      → a.field ≡ b.field
      → a.timestamp ≡ b.timestamp
      → a.value ≡ b.value

  not_winner :
      (ops : List (CrdtOp V)) (d f : Str) (w : CrdtOp V)
      → w.doc_id ≡ d
      → w.field ≡ f
      → All (λ op. (op.doc_id ≡ d) → ¬ (op.field ≡ f)) ops
      → ¬ Memᴰ w ops
  not_winner ops d f w e e' all m =
      mem-All (λ op. (op.doc_id ≡ d) → ¬ (op.field ≡ f)) ops all m e e'

  same_value :
      (ops ops' : List (CrdtOp V)) (d f : Str)
      → NoTies ops
      → ((op : CrdtOp V) → Memᴰ op ops → Memᴰ op ops')
      → ((op : CrdtOp V) → Memᴰ op ops' → Memᴰ op ops)
      → (w w' : CrdtOp V) → IsWinner d f ops w
      → IsWinner d f ops' w'
      → w.value ≡ w'.value
  same_value ops ops' d f ties to from w w' win win' =
      ties w w' win.among (from w' win'.among) (win.doc ∙ sym win'.doc) (win.field ∙ sym win'.field)
        (eq_of_not-before w.timestamp w'.timestamp
          (win.latest w' (from w' win'.among) win'.doc win'.field)
          (win'.latest w (to w win.among) win.doc win.field))

  -- Merging depends on the operations only as a set: repeats and the order of arrival do not
  -- matter, if no two operations write different values to one field at one time.
  pub merge_same_set :
      (o o' : MapOrder) (ops ops' : List (CrdtOp V)) (d f : Str)
      → NoTies ops
      → ((op : CrdtOp V) → Memᴰ op ops → Memᴰ op ops')
      → ((op : CrdtOp V) → Memᴰ op ops' → Memᴰ op ops)
      → value_at (merge o ops) d f ≡ value_at (merge o' ops') d f
  merge_same_set o o' ops ops' d f ties to from = elim (merge_lem o ops d f) [
    | inl (w, win, e) ↦ elim (merge_lem o' ops' d f) [
      | inl (w', win', e') ↦ rw (e, e', same_value ops ops' d f ties to from w w' win win')
      | inr (e', all) ↦ absurd (not_winner ops' d f w win.doc win.field all (to w win.among))
    ]
    | inr (e, all) ↦ elim (merge_lem o' ops' d f) [
      | inl (w', win', e') ↦
          absurd (not_winner ops d f w' win'.doc win'.field all (from w' win'.among))
      | inr (e', all') ↦ rw (e, e')
    ]
  ]
