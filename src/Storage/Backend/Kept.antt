-- ===== src/Storage/Backend/Kept.antt =====
-- `merge_ops_local`, and the winners that `Compact` keeps, against `Merge` of core/crdt/merge.go.
use mobile_db.Prelude.{
  if◌then◌else◌, nat_eq, pair_eq, ℤ_eq, Str, str_eq_iff, str_eq_inst, mem-map, mem_of_map, ◌≡◌,
  refl, sym, ap, ◌∙◌, inl, inr, true, ◌&&◌, none, some, List, [], ◌∷◌, Memᴰ, arith,
}
use mobile_db.Prelude.Dict.{
  Dict, get, get-put, Unique, put-Unique, mem_of_get, get_of_mem, get-Permᴰ, MapOrder,
}
use mobile_db.Core.{Hlc, CrdtOp}
use mobile_db.Crdt.Hlc.{before}
use mobile_db.Crdt.Merge.{replaces, add_win, collect, merge, values_of}
use mobile_db.Crdt.Merge.Picks.{hits, pick, pick-Picked}
use mobile_db.Storage.Backend.{
  before_hlc, add_win_local, collect_local, merge_ops_local, add_winner, winners, kept_of,
}

pub before_hlc-before : (a b : Hlc) → before_hlc a b ≡ before a b
unfolding before_hlc before
before_hlc-before a b = refl

module _ {V : Type 0} where
  add_win_local-add_win :
      (wins : Dict Str (Dict Str (CrdtOp V))) (op : CrdtOp V)
      → add_win_local wins op ≡ add_win wins op
  unfolding add_win_local add_win replaces before_hlc before
  add_win_local-add_win wins op = ground arith

  collect_local-collect :
      (wins : Dict Str (Dict Str (CrdtOp V))) (ops : List (CrdtOp V))
      → collect_local wins ops ≡ collect wins ops
  unfolding collect_local collect
  collect_local-collect wins [] = refl
  collect_local-collect wins (op ∷ ops) =
      rw (add_win_local-add_win wins op) (collect_local-collect (add_win wins op) ops)

  -- The local copy of the merge computes what `Merge` computes.
  pub merge_ops_local-merge :
      (o : MapOrder) (ops : List (CrdtOp V)) → merge_ops_local o ops ≡ merge o ops
  unfolding merge_ops_local merge
  merge_ops_local-merge o ops = ap (values_of o) (collect_local-collect [] ops)

  get-add_winner :
      (wins : Dict (Str × Str) (CrdtOp V)) (op : CrdtOp V) (d f : Str)
      → get (add_winner wins op) (d, f)
        ≡ (if hits d f op && replaces (get wins (d, f)) op then some op else get wins (d, f))
  unfolding add_winner replaces before_hlc before
  get-add_winner wins op d f = ground (
    arith,
    get-put wins (op.doc_id, op.field) op (d, f),
    str_eq_iff op.doc_id d,
    str_eq_iff op.field f,
  )

  get-winners :
      (wins : Dict (Str × Str) (CrdtOp V)) (ops : List (CrdtOp V)) (d f : Str)
      → get (winners wins ops) (d, f) ≡ pick d f (get wins (d, f)) ops
  unfolding winners pick
  get-winners wins [] d f = refl
  get-winners wins (op ∷ ops) d f =
      get-winners (add_winner wins op) ops d f ∙ rw (get-add_winner wins op d f)

  winners-Unique :
      (wins : Dict (Str × Str) (CrdtOp V)) (ops : List (CrdtOp V))
      → Unique wins
      → Unique (winners wins ops)
  unfolding winners add_winner
  winners-Unique wins [] u = u
  winners-Unique wins (op ∷ ops) u =
      winners-Unique (add_winner wins op) ops
        (ground (arith, u, put-Unique wins (op.doc_id, op.field) op))

  get_start : (d f : Str) → get {K = Str × Str} {V = CrdtOp V} [] (d, f) ≡ none
  unfolding get
  get_start d f = refl

  hit_fields : (d f : Str) (w : CrdtOp V) → hits d f w ≡ true → (w.doc_id ≡ d) × (w.field ≡ f)
  hit_fields d f w h = ground (arith, str_eq_iff w.doc_id d, str_eq_iff w.field f)

  pub pick-hits :
      (d f : Str) (ops : List (CrdtOp V)) (w : CrdtOp V)
      → pick d f none ops ≡ some w
      → Memᴰ w ops × (w.doc_id ≡ d) × (w.field ≡ f)
  pick-hits d f ops w h = elim (pick-Picked d f none ops w h).origin [
    | inl q ↦ cc
    | inr (m, h') ↦ let (e, e') = hit_fields d f w h' in (m, e, e')
  ]

  -- `Compact` keeps an operation exactly if it is the one that wins its field.
  pub mem-kept_of :
      (o : MapOrder) (ops : List (CrdtOp V)) {w : CrdtOp V}
      → Memᴰ w (kept_of o ops)
      → pick w.doc_id w.field none ops ≡ some w
  unfolding kept_of
  mem-kept_of o ops {w} m =
      let (p, mp, e) = mem-map (λ p. p.1) _ m in
      let (u, same) =
        get-Permᴰ (o.visit_perm ((Str × Str) × CrdtOp V) (winners [] ops))
          (winners-Unique [] ops tt) in
      let found : pick p.0.0 p.0.1 none ops ≡ some p.1 =
        sym (get-winners [] ops p.0.0 p.0.1 ∙ rw get_start)
        ∙ sym (same p.0)
        ∙ get_of_mem _ p.0 u mp in
      let (_, doc, field) = pick-hits p.0.0 p.0.1 ops p.1 found in rw (e, doc, field) found

  pub mem_of_kept_of :
      (o : MapOrder) (ops : List (CrdtOp V)) (d f : Str) {w : CrdtOp V}
      → pick d f none ops ≡ some w
      → Memᴰ w (kept_of o ops)
  unfolding kept_of
  mem_of_kept_of o ops d f {w} h =
      let (u, same) =
        get-Permᴰ (o.visit_perm ((Str × Str) × CrdtOp V) (winners [] ops))
          (winners-Unique [] ops tt) in
      mem_of_map (λ p. p.1) _
        (mem_of_get _ (d, f) (same (d, f) ∙ get-winners [] ops d f ∙ rw get_start h))
