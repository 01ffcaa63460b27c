-- ===== src/Storage/OpLog/Stored.antt =====
-- What an insertion of operations makes of the rows of a table.
use mobile_db.Prelude.{
  Bool-cases, ◌==◌, nat_eq, pair_eq, ℤ_eq, str_eq_inst, All, All-mem, mem-All, ◌≡◌, refl, ◌⊎◌, inl,
  inr, true, some, List, [], ◌∷◌, Memᴰ,
}
use mathlib.Core.List.Memᴰ.{head, tail}
use mobile_db.Core.{CrdtOp}
use mobile_db.Storage.OpLog.{Json, Row, active, insert_row, row_of}
use mobile_db.Storage.OpLog.Inserts.{write_all, text_of, has_id, write_all-has_id, Marshals}

pub insert_row-All :
    (P : Row → Type 0) (r : Row) (rows : List Row) → P r → All P rows → All P (insert_row r rows)
unfolding insert_row
insert_row-All P r [] p h = (p, tt)
insert_row-All P r (x ∷ xs) p h = elim (Bool-cases (x.op_id == r.op_id)) [
  | inl e ↦ rw e h
  | inr e ↦ rw e (h.0, insert_row-All P r xs p h.1)
]

pub mem-insert_row :
    (r : Row) (rows : List Row) {x : Row} → Memᴰ x rows → Memᴰ x (insert_row r rows)
unfolding insert_row
mem-insert_row r [] m = elim m [ ]
mem-insert_row r (y ∷ ys) (head e) = elim (Bool-cases (y.op_id == r.op_id)) [
  | inl q ↦ rw q (head e)
  | inr q ↦ rw q (head e)
]
mem-insert_row r (y ∷ ys) (tail m) = elim (Bool-cases (y.op_id == r.op_id)) [
  | inl q ↦ rw q (tail m)
  | inr q ↦ rw q (tail (mem-insert_row r ys m))
]

module _ {V : Type 0} (json : Json V) where
  pub mem-write_all :
      (ops : List (CrdtOp V)) (rows : List Row) {x : Row}
      → Memᴰ x rows
      → Memᴰ x (write_all json insert_row ops rows)
  unfolding write_all
  mem-write_all [] rows m = m
  mem-write_all (op ∷ ops) rows m =
      mem-write_all ops _ (mem-insert_row (row_of op (text_of json op)) rows m)

  -- The row holds the operation: its identifiers, the text of its value, its timestamp and its device.
  pub record Stored (op : CrdtOp V) (r : Row) : Type 0 where
    pub op_id : r.op_id ≡ op.op_id
    pub doc : r.doc_id ≡ op.doc_id
    pub field : r.field ≡ op.field
    pub value : json.marshal op.value ≡ some r.value
    pub wall : r.ts_wall ≡ op.timestamp.wall_time
    pub logical : r.ts_logic ≡ op.timestamp.logical
    pub device : r.device_id ≡ op.device_id
    pub is_active : r.status ≡ active

  -- The rows after an insertion of `ops`: those from before are there, any other holds one of the
  -- operations, and the op_id of each operation has a row.
  abbrev pub Inserted : List (CrdtOp V) → List Row → List Row → Type 0
  Inserted ops rows rows' =
      All (λ r. Memᴰ r rows') rows
      × All (λ r. Memᴰ r rows ⊎ ((op : CrdtOp V) × Memᴰ op ops × Stored op r)) rows'
      × All (λ op. has_id op.op_id rows' ≡ true) ops

  row_of-Stored : (op : CrdtOp V) → Marshals json op → Stored op (row_of op (text_of json op))
  unfolding row_of
  row_of-Stored op m = record {
    op_id = refl;
    doc = refl;
    field = refl;
    value = m;
    wall = refl;
    logical = refl;
    device = refl;
    is_active = refl;
  }

  write_all-All :
      (P : Row → Type 0) (ops : List (CrdtOp V)) (rows : List Row)
      → All (λ op. P (row_of op (text_of json op))) ops
      → All P rows
      → All P (write_all json insert_row ops rows)
  unfolding write_all
  write_all-All P [] rows h p = p
  write_all-All P (op ∷ ops) rows h p =
      write_all-All P ops _ h.1 (insert_row-All P (row_of op (text_of json op)) rows h.0 p)

  pub write_all-Inserted :
      (ops : List (CrdtOp V)) (rows : List Row)
      → All (Marshals json) ops
      → Inserted ops rows (write_all json insert_row ops rows)
  write_all-Inserted ops rows marshals = (
    All-mem (λ r. Memᴰ r (write_all json insert_row ops rows)) rows
        (λ r m. mem-write_all ops rows m),
    write_all-All (λ r. Memᴰ r rows ⊎ ((op : CrdtOp V) × Memᴰ op ops × Stored op r)) ops rows
        (All-mem _ ops
          (λ op m. inr (op, m, row_of-Stored op (mem-All (Marshals json) ops marshals m))))
        (All-mem _ rows (λ r m. inl m)),
    write_all-has_id json ops rows,
  )
