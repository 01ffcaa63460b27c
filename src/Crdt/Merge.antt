-- ===== src/Crdt/Merge.antt =====
-- core/crdt/merge.go: last write wins over a list of operations. `o` is the order in which the
-- loops over the winners visit the map.
pub mod Picks
pub mod Collect
pub mod Winners
use mathlib.Core.Option
use mobile_db.Prelude.{
  if◌then◌else◌, nat_eq, pair_eq, ℤ_eq, Str, str_eq_inst, Bool, true, Option, none, some, List, [],
  ◌∷◌,
}
use mobile_db.Prelude.Dict.{Dict, get, put, MapOrder, copy_into}
use mobile_db.Core.{CrdtOp}
use mobile_db.Crdt.Hlc.{before}

abbrev pub Wins : Type 0 → Type 0
Wins V = Dict Str (Dict Str (CrdtOp V))

-- `wins[op.DocID]`, the nil map where it is missing
unfoldable pub fields_of : {W : Type 0} → Dict Str (Dict Str W) → Str → Dict Str W
fields_of wins d = elim (get wins d) [ none ↦ [] | some fields ↦ fields ]

module _ {V : Type 0} where
  -- `!exists || Before(cur.op.Timestamp, op.Timestamp)`
  unfoldable pub replaces : Option (CrdtOp V) → CrdtOp V → Bool
  replaces none op = true
  replaces (some cur) op = before cur.timestamp op.timestamp

  -- `if _, ok := wins[op.DocID]; !ok { wins[op.DocID] = map[string]winner{} }`
  unfoldable pub make_doc : Wins V → Str → Wins V
  make_doc wins d = elim (get wins d) [ none ↦ put wins d [] | some fields ↦ wins ]

  -- The body of the loop over the operations.
  unfoldable pub add_win : Wins V → CrdtOp V → Wins V
  add_win wins op =
      let made = make_doc wins op.doc_id in
      let fields = fields_of made op.doc_id in
      if replaces (get fields op.field) op
      then put made op.doc_id (put fields op.field op)
      else made

  unfoldable pub collect : Wins V → List (CrdtOp V) → Wins V
  collect wins [] = wins
  collect wins (op ∷ ops) = collect (add_win wins op) ops

  -- The two nested loops that copy the values of the winners.
  unfoldable pub values_of : MapOrder → Wins V → Dict Str (Dict Str V)
  values_of o wins =
      copy_into
        (λ fields. copy_into (λ (w : CrdtOp V). w.value) [] (o.visit (Str × CrdtOp V) fields)) []
        (o.visit (Str × Dict Str (CrdtOp V)) wins)

  unfoldable pub merge : MapOrder → List (CrdtOp V) → Dict Str (Dict Str V)
  unfolding collect values_of
  merge o ops = values_of o (collect [] ops)

-- `result[docID][field]`
unfoldable pub value_at : {W : Type 0} → Dict Str (Dict Str W) → Str → Str → Option W
value_at m d f = elim (get m d) [ none ↦ none | some fields ↦ get fields f ]
