-- ===== src/Crdt/Merge/Collect.antt =====
-- The map of winners that the loop of `Merge` builds: at each field, the operation that one pass
-- over the list picks.
use mathlib.Core.Option.{some-injective}
use mathlib.Core.Path.{subst}
use mobile_db.Prelude.{
  if◌then◌else◌, Bool-cases, Option-cases, ◌==◌, nat_eq, pair_eq, ℤ_eq, Str, str_eq_iff,
  str_eq_inst, ◌≡◌, refl, ◌∙◌, inl, inr, ◌&&◌, some, List, [], ◌∷◌, arith,
}
use mobile_db.Prelude.Dict.{Dict, get, put, get-put, Unique, put-Unique}
use mobile_db.Core.{CrdtOp}
use mobile_db.Crdt.Merge.{Wins, fields_of, replaces, make_doc, add_win, collect, value_at}
use mobile_db.Crdt.Merge.Picks.{hits, pick}

module _ {V : Type 0} where
  value_at-make_doc :
      (wins : Wins V) (j d f : Str) → value_at (make_doc wins j) d f ≡ value_at wins d f
  unfolding value_at make_doc get
  value_at-make_doc wins j d f = ground (arith, get-put wins j [] d, str_eq_iff j d)

  value_at-fields_of : (m : Wins V) (d f : Str) → get (fields_of m d) f ≡ value_at m d f
  unfolding value_at fields_of get
  value_at-fields_of m d f = ground arith

  value_at-put :
      (m : Wins V) (j i : Str) (op : CrdtOp V) (d f : Str)
      → value_at (put m j (put (fields_of m j) i op)) d f
        ≡ (if j == d && i == f then some op else value_at m d f)
  unfolding value_at
  value_at-put m j i op d f = ground (
    arith,
    get-put m j (put (fields_of m j) i op) d,
    get-put (fields_of m j) i op f,
    value_at-fields_of m d f,
    str_eq_iff j d,
  )

  value_at-add_win :
      (wins : Wins V) (op : CrdtOp V) (d f : Str)
      → value_at (add_win wins op) d f
        ≡ (if hits d f op && replaces (value_at wins d f) op then some op else value_at wins d f)
  unfolding add_win
  value_at-add_win wins op d f =
      let m = make_doc wins op.doc_id in
      ground (
        arith,
        value_at-put m op.doc_id op.field op d f,
        value_at-make_doc wins op.doc_id d f,
        value_at-make_doc wins op.doc_id op.doc_id op.field,
        value_at-fields_of m op.doc_id op.field,
        str_eq_iff op.doc_id d,
        str_eq_iff op.field f,
      )

  pub value_at-collect :
      (wins : Wins V) (ops : List (CrdtOp V)) (d f : Str)
      → value_at (collect wins ops) d f ≡ pick d f (value_at wins d f) ops
  unfolding collect pick
  value_at-collect wins [] d f = refl
  value_at-collect wins (op ∷ ops) d f =
      value_at-collect (add_win wins op) ops d f ∙ rw (value_at-add_win wins op d f)

  pub record WellFormed (wins : Wins V) : Type 0 where
    pub docs : Unique wins
    pub fields : (d : Str) (m : Dict Str (CrdtOp V)) → get wins d ≡ some m → Unique m

  put-WellFormed :
      (wins : Wins V) (d : Str) (m : Dict Str (CrdtOp V))
      → WellFormed wins
      → Unique m
      → WellFormed (put wins d m)
  put-WellFormed wins d m wf u = record {
    docs = put-Unique wins d m wf.docs;
    fields = λ j n h.
        let h' : (if d == j then some m else get wins j) ≡ some n = rw get-put at h in
        elim (Bool-cases (d == j)) [
          | inl e ↦ subst (λ x. Unique x) (some-injective m n (rw e at h')) u
          | inr e ↦ wf.fields j n (rw e at h')
        ];
  }

  fields_of-Unique : (wins : Wins V) (d : Str) → WellFormed wins → Unique (fields_of wins d)
  unfolding fields_of
  fields_of-Unique wins d wf = elim (Option-cases (get wins d)) [
    | inl e ↦ rw (e, fields_of) tt
    | inr (m, e) ↦ rw (e, fields_of) (wf.fields d m e)
  ]

  make_doc-WellFormed : (wins : Wins V) (d : Str) → WellFormed wins → WellFormed (make_doc wins d)
  unfolding make_doc
  make_doc-WellFormed wins d wf = elim (Option-cases (get wins d)) [
    | inl e ↦ rw (e, make_doc) (put-WellFormed wins d [] wf tt)
    | inr (m, e) ↦ rw (e, make_doc) wf
  ]

  pub collect-WellFormed :
      (wins : Wins V) (ops : List (CrdtOp V)) → WellFormed wins → WellFormed (collect wins ops)
  unfolding collect add_win
  collect-WellFormed wins [] wf = wf
  collect-WellFormed wins (op ∷ ops) wf =
      collect-WellFormed (add_win wins op) ops
        (elim (Bool-cases (replaces (get (fields_of m op.doc_id) op.field) op)) [
          | inl e ↦ rw e (
              put-WellFormed m op.doc_id (put (fields_of m op.doc_id) op.field op) wf'
                (put-Unique (fields_of m op.doc_id) op.field op (fields_of-Unique m op.doc_id wf')))
          | inr e ↦ rw e wf'
        ])
    where
      m : Wins V
      m = make_doc wins op.doc_id

      wf' : WellFormed m
      wf' = make_doc-WellFormed wins op.doc_id wf
