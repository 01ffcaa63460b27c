-- ===== src/Storage/Backend.antt =====
-- storage/crsqlite/backend.go: the storage backend over the op_log tables.
pub mod Merging
pub mod Kept
pub mod Survivors
pub mod Holds
pub mod Held
pub mod Answers
pub mod Writes
pub mod Compaction
pub mod Delta
use mobile_db.Prelude.{
  ℕ, ltb, if◌then◌else◌, ◌==◌, nat_eq, pair_eq, ltb_ℤ, ℤ_eq, Str, codes, str_lt, str_eq_inst, Bool,
  true, not, Option, none, some, List, [], ◌∷◌, ◌++◌, map,
}
use mobile_db.Prelude.Dict.{Dict, get, put, MapOrder}
use mobile_db.Prelude.Exec.{marshal_failed, pure, raise, ◌>>=◌, ◌>>◌}
use mobile_db.Core.{Hlc, zero_hlc, CrdtOp}
use mobile_db.Crdt.Merge.{Wins, make_doc, fields_of, values_of}
use mobile_db.Storage.OpLog.{
  Json, Db, ensure_dataset, insert_ops, query_ops, count_ops, archive_ops, reactivate_ops,
  write_snapshot,
}

unfoldable pub before_hlc : Hlc → Hlc → Bool
before_hlc a b =
    if not (a.wall_time == b.wall_time)
    then ltb_ℤ a.wall_time b.wall_time
    else if not (a.logical == b.logical)
    then ltb a.logical b.logical
    else str_lt a.device_id b.device_id

pub record DocState (V : Type 0) : Type 0 where
  pub fields : Dict Str V
  pub hlc : Hlc
  pub dev_id : Str

module _ {V : Type 0} where
  -- The loop that computes the largest timestamp.
  unfoldable pub max_hlc : Hlc → List (CrdtOp V) → Hlc
  max_hlc m [] = m
  max_hlc m (op ∷ ops) = max_hlc (if before_hlc m op.timestamp then op.timestamp else m) ops

  -- The body of the loop of `mergeOpsLocal`.
  unfoldable pub add_win_local : Wins V → CrdtOp V → Wins V
  add_win_local wins op =
      let made = make_doc wins op.doc_id in
      let fields = fields_of made op.doc_id in
      let newer : Bool = elim (get fields op.field) [
        | none ↦ true
        | some cur ↦ before_hlc cur.timestamp op.timestamp
      ] in
      if newer then put made op.doc_id (put fields op.field op) else made

  unfoldable pub collect_local : Wins V → List (CrdtOp V) → Wins V
  collect_local wins [] = wins
  collect_local wins (op ∷ ops) = collect_local (add_win_local wins op) ops

  unfoldable pub merge_ops_local : MapOrder → List (CrdtOp V) → Dict Str (Dict Str V)
  merge_ops_local o ops = values_of o (collect_local [] ops)

  -- `flat[docID+"."+field] = val`, over the fields of one document, then over all documents.
  unfoldable pub flatten_doc : Str → Dict Str V → List (Str × V) → Dict Str V
  flatten_doc d flat [] = flat
  flatten_doc d flat ((f, v) ∷ fs) = flatten_doc d (put flat (d ++ (codes "." ++ f)) v) fs

  unfoldable pub flatten_docs : MapOrder → Dict Str V → List (Str × Dict Str V) → Dict Str V
  flatten_docs o flat [] = flat
  flatten_docs o flat ((d, fields) ∷ ds) =
      flatten_docs o (flatten_doc d flat (o.visit (Str × V) fields)) ds

  -- The loop of `Compact` over the operations: the winner of each (document, field).
  unfoldable pub add_winner : Dict (Str × Str) (CrdtOp V) → CrdtOp V → Dict (Str × Str) (CrdtOp V)
  add_winner wins op =
      let key : Str × Str = (op.doc_id, op.field) in
      elim (get wins key) [
        | none ↦ put wins key op
        | some cur ↦ if before_hlc cur.timestamp op.timestamp then put wins key op else wins
      ]

  unfoldable pub winners :
      Dict (Str × Str) (CrdtOp V) → List (CrdtOp V) → Dict (Str × Str) (CrdtOp V)
  winners wins [] = wins
  winners wins (op ∷ ops) = winners (add_winner wins op) ops

  -- The body of the loop over the winners that builds a document's state.
  unfoldable pub doc_of : Option (DocState V) → DocState V
  doc_of none = record { fields = []; hlc = zero_hlc; dev_id = [] }
  doc_of (some ds) = ds

  unfoldable pub note_op : DocState V → CrdtOp V → DocState V
  note_op ds op =
      let ds' : DocState V = record ds { fields = put ds.fields op.field op.value } in
      if before_hlc ds.hlc op.timestamp
      then record ds' { hlc = op.timestamp; dev_id = op.device_id }
      else ds'

  unfoldable pub build_docs : Dict Str (DocState V) → List (CrdtOp V) → Dict Str (DocState V)
  build_docs docs [] = docs
  build_docs docs (op ∷ ops) =
      build_docs (put docs op.doc_id (note_op (doc_of (get docs op.doc_id)) op)) ops

-- The operations that `Compact` keeps, in the order in which its loop visits the winners.
unfoldable pub kept_of : {V : Type 0} → MapOrder → List (CrdtOp V) → List (CrdtOp V)
kept_of {V} o ops = map (λ p. p.1) (o.visit ((Str × Str) × CrdtOp V) (winners [] ops))

unfoldable pub op_count : Str → Str → Str → Db ℕ
op_count app_id user_id dataset_id = do
  ensure_dataset app_id user_id dataset_id
  count_ops app_id user_id dataset_id

module _ {V : Type 0} (json : Json V) (app_id user_id dataset_id : Str) where
  unfoldable pub merge_ops : List (CrdtOp V) → Db (Unit {0})
  merge_ops ops = do
    ensure_dataset app_id user_id dataset_id
    insert_ops json app_id user_id dataset_id ops

  unfoldable pub get_delta : Hlc → Db (List (CrdtOp V) × Hlc)
  get_delta since = do
    ensure_dataset app_id user_id dataset_id
    ops ← query_ops json app_id user_id dataset_id since
    pure (ops, max_hlc zero_hlc ops)

  -- One snapshot row for each document.
  unfoldable pub write_docs : List (Str × DocState V) → Db (Unit {0})
  write_docs [] = pure tt
  write_docs ((d, ds) ∷ rest) =
      let later = write_docs rest in
      elim (json.marshal_fields ds.fields) [
        | none ↦ raise marshal_failed
        | some content ↦ do
          write_snapshot (dataset_id, (user_id, d))
              (record {
                content = content;
                wall_time = ds.hlc.wall_time;
                logical = ds.hlc.logical;
                device_id = ds.dev_id;
              })
          later
      ]

  -- `if len(kept) > 0 { … }`
  unfoldable pub reactivate_kept : List (CrdtOp V) → Db (Unit {0})
  reactivate_kept [] = pure tt
  reactivate_kept (op ∷ ops) = reactivate_ops json app_id user_id dataset_id (op ∷ ops)

  module _ (o : MapOrder) where
    unfoldable pub get_snapshot : Db (Dict Str V × Hlc)
    get_snapshot = do
      ensure_dataset app_id user_id dataset_id
      ops ← query_ops json app_id user_id dataset_id zero_hlc
      let snapshot = merge_ops_local o ops
      pure (flatten_docs o [] (o.visit (Str × Dict Str V) snapshot), max_hlc zero_hlc ops)

    -- `Compact` from the computation of the winners on.
    unfoldable pub compact_rest : List (CrdtOp V) → Db (Unit {0})
    compact_rest ops = do
      let kept = kept_of o ops
      write_docs (o.visit (Str × DocState V) (build_docs [] kept))
      archive_ops app_id user_id dataset_id
      reactivate_kept kept

    unfoldable pub compact : Db (Unit {0})
    compact = do
      ensure_dataset app_id user_id dataset_id
      ops ← query_ops json app_id user_id dataset_id zero_hlc
      compact_rest ops
