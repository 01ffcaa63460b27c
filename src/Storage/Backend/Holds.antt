-- ===== src/Storage/Backend/Holds.antt =====
-- What a dataset's table keeps for good: once it has an active row for a field, it goes on to have one
-- that is not older, through insertions and through compaction.
use mobile_db.Prelude.{
  Bool-cases, ◌==◌, nat_eq, pair_eq, ℤ_eq, Str, str_eq_iff, str_eq_inst, All, ◌≡◌, refl, inl, inr,
  true, false, some, List, [], ◌∷◌, Memᴰ, arith,
}
use mathlib.Core.List.Memᴰ.{head, tail}
use mobile_db.Core.{Hlc, zero_hlc, CrdtOp}
use mobile_db.Crdt.Hlc.{before}
use mobile_db.Crdt.Hlc.Order.{before_irrefl}
use mobile_db.Storage.OpLog.{Json, Row, is_active, is_after, insert_row, row_of}
use mobile_db.Storage.OpLog.Inserts.{write_all, text_of, has_id, has_id-insert_row}
use mobile_db.Storage.OpLog.Stored.{insert_row-All, mem-write_all}
use mobile_db.Storage.OpLog.Queries.{stamp_of}
use mobile_db.Storage.OpLog.Revive.{DistinctIds, op_has, op_has_of_mem}
use mobile_db.Storage.Backend.Delta.{Readable}

-- An active row for the field that is not before `t`, with a timestamp after zero.
pub record Holds (d f : Str) (t : Hlc) (rows : List Row) : Type 0 where
  pub row : Row
  pub present : Memᴰ row rows
  pub active : is_active row ≡ true
  pub positive : is_after zero_hlc row ≡ true
  pub doc : row.doc_id ≡ d
  pub field : row.field ≡ f
  pub newer : before (stamp_of row) t ≡ false

-- op_ids are distinct, and every value can be read.
pub record Sound {V : Type 0} (json : Json V) (rows : List Row) : Type 0 where
  pub distinct : DistinctIds rows
  pub readable : All (Readable json) rows

insert_row-DistinctIds :
    (r : Row) (rows : List Row) → DistinctIds rows → DistinctIds (insert_row r rows)
unfolding insert_row has_id
insert_row-DistinctIds r [] d = (refl, tt)
insert_row-DistinctIds r (x ∷ xs) d = ground (
  arith,
  has_id-insert_row x.op_id r xs,
  insert_row-DistinctIds r xs d.1,
  str_eq_iff x.op_id r.op_id,
  str_eq_iff r.op_id x.op_id,
)

mem_of_insert_row :
    (r : Row) (rows : List Row) → has_id r.op_id rows ≡ false → Memᴰ r (insert_row r rows)
unfolding insert_row has_id
mem_of_insert_row r [] h = head refl
mem_of_insert_row r (y ∷ ys) h = elim (Bool-cases (y.op_id == r.op_id)) [
  | inl q ↦ absurd (let h' = rw q at h in cc)
  | inr q ↦ rw q (tail (mem_of_insert_row r ys (rw q at h)))
]

module _ {V : Type 0} where
  -- The timestamp that an operation is stored with: its device is that of the operation.
  abbrev pub stored_at : CrdtOp V → Hlc
  stored_at op = record op.timestamp { device_id = op.device_id }

  -- The op_ids of the operations are distinct.
  abbrev pub DistinctOps : List (CrdtOp V) → Type 0
  DistinctOps [] = Unit
  DistinctOps (op ∷ ops) = (op_has op.op_id ops ≡ false) × DistinctOps ops

  module _ (json : Json V) where
    -- An operation whose op_id is new is stored as an active row.
    mem_of_write_all :
        (ops : List (CrdtOp V)) (rows : List Row) {op : CrdtOp V}
        → DistinctOps ops
        → Memᴰ op ops
        → has_id op.op_id rows ≡ false
        → Memᴰ (row_of op (text_of json op)) (write_all json insert_row ops rows)
    unfolding write_all row_of
    mem_of_write_all [] rows d m h = elim m [ ]
    mem_of_write_all (x ∷ ops) rows {op} d (head e) h =
        rw (← e) (mem-write_all json ops _ (mem_of_insert_row (row_of op (text_of json op)) rows h))
    mem_of_write_all (x ∷ ops) rows {op} d (tail m) h =
        mem_of_write_all ops (insert_row (row_of x (text_of json x)) rows) d.1 m (
          ground (
            arith,
            has_id-insert_row op.op_id (row_of x (text_of json x)) rows,
            op_has_of_mem ops m,
            str_eq_iff x.op_id op.op_id,
          ))

    pub write_all-Holds :
        (ops : List (CrdtOp V)) (rows : List Row) (d f : Str) (t : Hlc)
        → Holds d f t rows
        → Holds d f t (write_all json insert_row ops rows)
    write_all-Holds ops rows d f t h = record {
      row = h.row;
      present = mem-write_all json ops rows h.present;
      active = h.active;
      positive = h.positive;
      doc = h.doc;
      field = h.field;
      newer = h.newer;
    }

    -- The value that is stored for an operation can be read.
    abbrev pub ReadsBack : CrdtOp V → Type 0
    ReadsBack op = (v : V) × (json.unmarshal (text_of json op) ≡ some v)

    pub write_all-Sound :
        (ops : List (CrdtOp V)) (rows : List Row)
        → All ReadsBack ops
        → Sound json rows
        → Sound json (write_all json insert_row ops rows)
    unfolding write_all row_of
    write_all-Sound [] rows h s = s
    write_all-Sound (op ∷ ops) rows h s =
        let r = row_of op (text_of json op) in
        write_all-Sound ops (insert_row r rows) h.1 (record {
          distinct = insert_row-DistinctIds r rows s.distinct;
          readable = insert_row-All (Readable json) r rows h.0 s.readable;
        })

    -- An inserted operation with a new op_id and a timestamp after zero is held.
    pub write_all-new :
        (ops : List (CrdtOp V)) (rows : List Row) {op : CrdtOp V}
        → DistinctOps ops
        → Memᴰ op ops
        → has_id op.op_id rows ≡ false
        → is_after zero_hlc (row_of op (text_of json op)) ≡ true
        → Holds op.doc_id op.field (stored_at op) (write_all json insert_row ops rows)
    unfolding row_of is_active
    write_all-new ops rows {op} d m h p = record {
      row = row_of op (text_of json op);
      present = mem_of_write_all ops rows d m h;
      active = refl;
      positive = p;
      doc = refl;
      field = refl;
      newer = before_irrefl (stored_at op);
    }
