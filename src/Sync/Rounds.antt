-- ===== src/Sync/Rounds.antt =====
-- core/sync/engine.go over the SQLite backend: what a round of a sync, on a connection without driver
-- errors, makes of the table of its dataset.
use mobile_db.Prelude.{
  Bool-cases, nat_eq, pair_eq, ℤ, pos, ltb_ℤ, ◌<ℤ◌, ℤ_eq, Str, str_eq_inst, length, select, All-mem,
  mem-All, ◌≡◌, inl, inr, true, false, some, List, [], Memᴰ, arith,
}
use mobile_db.Prelude.Dict.{Dict, MapOrder}
use mobile_db.Prelude.Exec.{ok}
use mobile_db.Prelude.Exec.Runs.{moved, Runs-pure}
use mobile_db.Core.{Hlc, zero_hlc, CrdtOp}
use mobile_db.Storage.OpLog.{
  Logs, Json, Row, is_active, is_after, insert_row, row_of, selected, scan_rows,
}
use mobile_db.Storage.OpLog.Inserts.{write_all, text_of, has_id, Marshals}
use mobile_db.Storage.OpLog.Ensure.{key_of, rows_at, ensured}
use mobile_db.Storage.OpLog.Queries.{mem-selected}
use mobile_db.Storage.Backend.{merge_ops, op_count, get_snapshot, get_delta, max_hlc}
use mobile_db.Storage.Backend.Answers.{op_count-Runs, get_snapshot-Runs, rows_at-ensured}
use mobile_db.Storage.Backend.Compaction.{compact-rows}
use mobile_db.Storage.Backend.Delta.{scan_rows_total, get_delta-Runs, Readable}
use mobile_db.Storage.Backend.Held.{compacted_rows, compacted-Sound, compacted-Holds}
use mobile_db.Storage.Backend.Holds.{
  Holds, Sound, DistinctOps, stored_at, ReadsBack, write_all-Holds, write_all-Sound, write_all-new,
}
use mobile_db.Storage.Backend.Merging.{merged, merge_ops-Runs, rows_at-merged}
use mobile_db.Storage.Backend.Writes.{JsonTotal, marshals}
use mobile_db.Sync.{maybe_compact}
use mobile_db.Sync.Crsqlite.{crsqlite}
use mobile_db.Sync.Serving.{Lands, Lands-bind}

-- `json.Marshal` accepts every value, and `json.Unmarshal` accepts what it made.
pub record JsonWorks {V : Type 0} (json : Json V) : Type 0 where
  pub total : JsonTotal json
  pub reads : (v : V) (s : Str) → json.marshal v ≡ some s → (v' : V) × (json.unmarshal s ≡ some v')

module _ {V : Type 0} (json : Json V) where
  -- What a round that brings `ops` makes of the rows.
  pub record Grows (ops : List (CrdtOp V)) (rows rows' : List Row) : Type 0 where
    pub sound : Sound json rows'
    pub keeps : (d f : Str) (t : Hlc) → Holds d f t rows → Holds d f t rows'
    pub stores :
        (op : CrdtOp V)
        → Memᴰ op ops
        → DistinctOps ops
        → has_id op.op_id rows ≡ false
        → pos 0 <ℤ op.timestamp.wall_time
        → Holds op.doc_id op.field (stored_at op) rows'

  pub Grows-none : (rows : List Row) → Sound json rows → Grows [] rows rows
  Grows-none rows s = record { sound = s; keeps = λ d f t h. h; stores = λ op m d n p. elim m [ ] }

  positive_after :
      (op : CrdtOp V) (s : Str)
      → pos 0 <ℤ op.timestamp.wall_time
      → is_after zero_hlc (row_of op s) ≡ true
  unfolding is_after row_of
  positive_after op s h = ground arith

  module _ (works : JsonWorks json) where
    Grows-write :
        (ops : List (CrdtOp V)) (rows : List Row)
        → Sound json rows
        → Grows ops rows (write_all json insert_row ops rows)
    Grows-write ops rows s = record {
      sound =
          write_all-Sound json ops rows
            (All-mem (ReadsBack json) ops
              (λ op m. works.reads op.value (text_of json op) (marshals json works.total op)))
            s;
      keeps = λ d f t h. write_all-Holds json ops rows d f t h;
      stores =
          λ op m d n p. write_all-new json ops rows d m n (positive_after op (text_of json op) p);
    }

    Grows-compact :
        (o : MapOrder) (ops read : List (CrdtOp V)) (rows rows' : List Row)
        → scan_rows json (selected zero_hlc rows') ≡ ok read
        → Grows ops rows rows'
        → Grows ops rows (compacted_rows json o rows' read)
    Grows-compact o ops read rows rows' e g = record {
      sound = compacted-Sound json o rows' read g.sound;
      keeps = λ d f t h. compacted-Holds json o rows' read d f t g.sound e (g.keeps d f t h);
      stores = λ op m d n p.
          compacted-Holds json o rows' read op.doc_id op.field (stored_at op) g.sound e
            (g.stores op m d n p);
    }

    module _ (a u d : Str) where
      abbrev pub rows_of : Logs → List Row
      rows_of l = rows_at l (key_of a u d)

      -- A merge returns, and the rows grow by its operations.
      pub merge-Grows :
          (ops : List (CrdtOp V)) (l : Logs)
          → Sound json (rows_of l)
          → (t : Logs) × Lands (merge_ops json a u d ops) l tt t × Grows ops (rows_of l) (rows_of t)
      merge-Grows ops l s = (
        merged json a u d ops l,
        λ c k q.
            merge_ops-Runs json a u d ops (moved c l k) q
              (All-mem (Marshals json) ops (λ op m. marshals json works.total op)),
        rw (rows_at-merged json a u d ops l) (Grows-write ops (rows_of l) s),
      )

      -- What a call does to any rows that have grown before it.
      abbrev pub Carries : Logs → Logs → Type 0
      Carries l l' =
          (ops : List (CrdtOp V)) (rows : List Row)
          → Grows ops rows (rows_of l)
          → Grows ops rows (rows_of l')

      pub ensured-Carries : (l : Logs) → Carries l (ensured a u d l)
      ensured-Carries l ops rows g = rw (rows_at-ensured a u d l) g

      scan_total :
          (since : Hlc) (l : Logs)
          → Sound json (rows_of l)
          → (read : List (CrdtOp V)) × (scan_rows json (selected since (rows_of l)) ≡ ok read)
      scan_total since l s = scan_rows_total json (selected since (rows_of l)) (
          All-mem (Readable json) _ (λ r m.
            mem-All (Readable json) (rows_of l) s.readable (mem-selected since (rows_of l) m).0))

      -- Whether it compacts or not, `MaybeCompact` returns and loses nothing.
      pub maybe_compact-Carries :
          (o : MapOrder) (threshold : ℤ) (l : Logs)
          → Sound json (rows_of l)
          → (t : Logs) × Lands (maybe_compact (crsqlite json o) threshold a u d) l tt t
            × Carries l t
      unfolding maybe_compact
      maybe_compact-Carries o threshold l s =
          let n = length (select is_active (rows_of l)) in
          let l' = ensured a u d l in
          let counted : Lands (op_count a u d) l n l' =
            λ c k q. op_count-Runs a u d (moved c l k) q in
          elim (Bool-cases (ltb_ℤ threshold (pos n))) [
            | inr few ↦ (
              l',
              Lands-bind (op_count a u d) _ l n l' tt l' counted
                  (λ c k q. rw few (Runs-pure (moved c l' k) tt)),
              ensured-Carries l,
            )
            | inl many ↦
                let sound : Sound json (rows_of l') = rw (rows_at-ensured a u d l) s in
                let (read, scanned) = scan_total zero_hlc l' sound in
                let (t, runs, rows) =
                  compact-rows json works.total a u d o l' read sound.distinct scanned in
                (
                  t,
                  Lands-bind (op_count a u d) _ l n l' tt t counted (λ c k q. rw many (runs c k q)),
                  λ ops rows0 g. rw rows (
                      Grows-compact o ops read rows0 (rows_of l') scanned
                        (ensured-Carries l ops rows0 g)),
                )
          ]

      -- A snapshot is read whatever the rows, and changes none.
      pub snapshot-Carries :
          (o : MapOrder) (l : Logs)
          → Sound json (rows_of l)
          → (snap : Dict Str V × Hlc) × Lands (get_snapshot json a u d o) l snap (ensured a u d l)
      snapshot-Carries o l s =
          let (read, scanned) = scan_total zero_hlc l s in
          (_, λ c k q. get_snapshot-Runs json a u d o (moved c l k) read q scanned)

      -- A delta returns what `selected` finds.
      pub delta-Carries :
          (since : Hlc) (l : Logs)
          → Sound json (rows_of l)
          → (read : List (CrdtOp V)) × Lands
              (get_delta json a u d since)
              l
              (read, max_hlc zero_hlc read)
              (ensured a u d l)
            × (scan_rows json (selected since (rows_of l)) ≡ ok read)
      delta-Carries since l s =
          let (read, scanned) = scan_total since l s in
          (read, λ c k q. get_delta-Runs json a u d since (moved c l k) read q scanned, scanned)
