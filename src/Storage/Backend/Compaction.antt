-- ===== src/Storage/Backend/Compaction.antt =====
-- `Compact` of storage/crsqlite/backend.go: it keeps every merged value, when no call fails and no
-- other call comes between its statements; and what a call in between can lose.
use mobile_db.Prelude.{
  ℕ, refl, ◌==◌, nat_eq, pair_eq, ℤ_eq, Str, str_eq_self, str_eq_inst, All, All-mem, mem-All, ◌≡◌,
  sym, ap, ◌∙◌, true, false, ◌&&◌, none, some, List, [], map,
}
use mobile_db.Prelude.Dict.{Dict, get, MapOrder, get-put_self}
use mobile_db.Prelude.Exec.{ok, Conn, stmt}
use mobile_db.Prelude.Exec.Runs.{Quiet, moved, Runs, Runs-stmt, Runs-bind}
use mathlib.Core.Option
use mobile_db.Core.{zero_hlc, CrdtOp}
use mobile_db.Crdt.Merge.{value_at}
use mobile_db.Crdt.Merge.Picks.{pick}
use mobile_db.Crdt.Merge.Winners.{value_at-merge}
use mobile_db.Storage.OpLog.{
  Logs, Json, Row, SnapshotRow, read_table, is_active, archive_row, upsert_row, selected, scan_rows,
  query_ops, archive_ops, ensure_dataset,
}
use mobile_db.Storage.OpLog.Inserts.{
  with_rows, tables_after, get-tables_after, on_table-some, has_id,
}
use mobile_db.Storage.OpLog.Ensure.{key_of, rows_at, ensured, ensure_dataset-Runs}
use mobile_db.Storage.OpLog.Queries.{mem-selected}
use mobile_db.Storage.OpLog.Revive.{
  revive, op_has, asleep, DistinctIds, write_all-revive, has_id-archived, has_id_of_mem,
  archived-DistinctIds,
}
use mobile_db.Storage.Backend.{
  DocState, kept_of, build_docs, write_docs, compact_rest, compact, merge_ops_local,
}
use mobile_db.Storage.Backend.Kept.{merge_ops_local-merge, mem-kept_of}
use mobile_db.Storage.Backend.Merging.{read_table-some, get-ensured_self, rows_at_of_get}
use mobile_db.Storage.Backend.Survivors.{
  compacted, compacted_scan, row_of_kept, Reads-id, kept_of_survivor, same_winner,
}
use mobile_db.Storage.Backend.Writes.{
  JsonTotal, ensured_snapshots, snapshots_after, write_docs-Runs, reactivate_kept-Runs,
}

merged_value :
    {V : Type 0} (o : MapOrder) (ops : List (CrdtOp V)) (x y : Str)
    → value_at (merge_ops_local o ops) x y ≡ Option.map (λ w. w.value) (pick x y none ops)
merged_value o ops x y = rw (merge_ops_local-merge o ops) (value_at-merge o ops x y)

module _ {V : Type 0} (json : Json V) (total : JsonTotal json) (a u d : Str) where
  module _ (o : MapOrder) (ops : List (CrdtOp V)) (rows : List Row)
      (m : Dict (Str × (Str × Str)) SnapshotRow) where
    -- The tables `l` after the snapshots are written, after archiving, and at the end.
    noted : Logs → Logs
    noted l = record l {
      snapshots = some (
          snapshots_after json total a u d
            (o.visit (Str × DocState V) (build_docs [] (kept_of o ops))) m);
    }

    shelved : Logs → Logs
    unfolding noted
    shelved l = with_rows (noted l) (key_of a u d) (map archive_row rows)

    final : Logs → Logs
    final l =
        tables_after json upsert_row (key_of a u d) (kept_of o ops) (map archive_row rows)
          (shelved l)

    compact_rest-Runs :
        (c : Conn Logs)
        → Quiet c
        → get c.tables.op_logs (key_of a u d) ≡ some rows
        → c.tables.snapshots ≡ some m
        → Runs (compact_rest json a u d o ops) c tt (final c.tables)
    unfolding compact_rest archive_ops final noted shelved
    compact_rest-Runs c quiet have e =
        let key = key_of a u d in
        let l = c.tables in
        let kept = kept_of o ops in
        let docs = o.visit (Str × DocState V) (build_docs [] kept) in
        Runs-bind c (write_docs json a u d docs) _ tt (noted l) tt (final l)
          (write_docs-Runs json total a u d docs c m quiet e)
          (λ k.
            Runs-bind (moved c (noted l) k) (archive_ops a u d) _ tt (shelved l) tt (final l)
              (Runs-stmt (moved c (noted l) k) _ tt (shelved l) quiet
                (on_table-some key (map archive_row) rows (noted l) have))
              (λ k'.
                reactivate_kept-Runs json total a u d kept (map archive_row rows)
                  (moved c (shelved l) k') quiet
                  (get-put_self l.op_logs key (map archive_row rows))))

    rows_at-final :
        (l : Logs)
        → DistinctIds rows
        → All (λ op. has_id op.op_id rows ≡ true) (kept_of o ops)
        → rows_at (final l) (key_of a u d) ≡ map (revive (kept_of o ops)) (map archive_row rows)
    unfolding final shelved
    rows_at-final l distinct has =
        let key = key_of a u d in
        let kept = kept_of o ops in
        rows_at_of_get _ key _ (
          get-tables_after json upsert_row key key kept (map archive_row rows) (shelved l)
            (get-put_self (noted l).op_logs key (map archive_row rows))
          ∙ rw (str_eq_self key))
        ∙ write_all-revive json kept (map archive_row rows) (archived-DistinctIds rows distinct) (
            All-mem _ kept (λ w mw.
              rw has_id-archived
                (mem-All (λ (op : CrdtOp V). has_id op.op_id rows ≡ true) kept has mw)))

    -- Compaction is no transaction. Let json.Marshal accept every value and every document, let the
    -- snapshots table exist, and let a compaction have read `ops` and then run on, without driver
    -- errors, over a table with distinct op_ids that has a row for each operation it keeps, and by now
    -- also a row whose op_id is none of theirs, such as one that a merge inserted in between. It
    -- succeeds, and leaves no active row with that op_id: no query returns the operation any more.
    pub compact_rest-loses :
        (c : Conn Logs) (r : Row)
        → Quiet c
        → get c.tables.op_logs (key_of a u d) ≡ some rows
        → c.tables.snapshots ≡ some m
        → DistinctIds rows
        → All (λ op. has_id op.op_id rows ≡ true) (kept_of o ops)
        → op_has r.op_id (kept_of o ops) ≡ false
        → ((compact_rest json a u d o ops c).0 ≡ ok tt)
          × All
              (λ x. (x.op_id == r.op_id && is_active x) ≡ false)
              (rows_at (compact_rest json a u d o ops c).1.tables (key_of a u d))
    compact_rest-loses c r quiet have e distinct has unread =
        let run = compact_rest-Runs c quiet have e in
        (
          rw run.result,
          rw run.result (
              rw (rows_at-final c.tables distinct has)
                (asleep (kept_of o ops) r.op_id rows unread)),
        )

  module _ (o : MapOrder) (c : Conn Logs) (quiet : Quiet c) (ops : List (CrdtOp V))
      (distinct : DistinctIds (rows_at c.tables (key_of a u d)))
      (scanned : scan_rows json (selected zero_hlc (rows_at c.tables (key_of a u d)))
        ≡ ok ops) where
    compact-Runs :
        (m : Dict (Str × (Str × Str)) SnapshotRow)
        → (ensured a u d c.tables).snapshots ≡ some m
        → Runs
            (compact json a u d o)
            c
            tt
            (final o ops (rows_at c.tables (key_of a u d)) m (ensured a u d c.tables))
    unfolding compact query_ops
    compact-Runs m e =
        let key = key_of a u d in
        let rows = rows_at c.tables key in
        let l = ensured a u d c.tables in
        let have = get-ensured_self a u d c.tables in
        let t = final o ops rows m l in
        Runs-bind c (ensure_dataset a u d) _ tt l tt t (ensure_dataset-Runs a u d c quiet) (λ k.
          Runs-bind (moved c l k) (query_ops json a u d zero_hlc) _ ops l tt t
            (Runs-bind (moved c l k) (stmt (read_table key (selected zero_hlc))) _
              (selected zero_hlc rows) l ops l
              (Runs-stmt (moved c l k) _ (selected zero_hlc rows) l quiet
                (read_table-some key (selected zero_hlc) rows l have))
              (λ k'. record { calls = k'; result = rw scanned }))
            (λ k'. compact_rest-Runs o ops rows m (moved c l k') quiet have e))

    kept_have_rows :
        All (λ op. has_id op.op_id (rows_at c.tables (key_of a u d)) ≡ true) (kept_of o ops)
    kept_have_rows =
        let rows = rows_at c.tables (key_of a u d) in
        All-mem _ (kept_of o ops) (λ w mw.
          let (r, mr, reads) = row_of_kept json o rows ops distinct scanned mw in
          rw (Reads-id json o rows ops distinct scanned r reads)
            (has_id_of_mem rows (mem-selected zero_hlc rows mr).0))

    -- Compaction on a connection without driver errors, of a table whose op_ids are distinct and whose active rows can be
    -- read, succeeds. The rows that can be read afterwards hold an operation for each field that
    -- had one, its winner, and no other; so the merged value of every field is what it was,
    -- whatever the order in which the loops visit their maps.
    pub compact-keeps :
        (o' o'' : MapOrder)
        → ((compact json a u d o c).0 ≡ ok tt)
          × (ops' : List (CrdtOp V)) × (scan_rows json
                (selected zero_hlc (rows_at (compact json a u d o c).1.tables (key_of a u d)))
              ≡ ok ops')
          × All (λ op. pick op.doc_id op.field none ops ≡ some op) ops'
          × ((x y : Str)
              → value_at (merge_ops_local o' ops') x y ≡ value_at (merge_ops_local o'' ops) x y)
    compact-keeps o' o'' =
        let (m, e) = ensured_snapshots a u d c.tables in
        let run = compact-Runs m e in
        let rows = rows_at c.tables (key_of a u d) in
        let (ops', h) = compacted_scan json o rows ops distinct scanned in
        let h' : scan_rows json
              (selected zero_hlc (map (revive (kept_of o ops)) (map archive_row rows)))
            ≡ ok ops' =
          unfold compacted in h in
        (
          rw run.result,
          ops',
          rw run.result
              (rw (rows_at-final o ops rows m (ensured a u d c.tables) distinct kept_have_rows) h'),
          All-mem _ ops' (λ op mo.
              mem-kept_of o ops (kept_of_survivor json o rows ops distinct scanned ops' h mo)),
          λ x y.
              merged_value o' ops' x y
              ∙ ap (Option.map (λ (w : CrdtOp V). w.value))
                  (same_winner json o rows ops distinct scanned ops' x y h)
              ∙ sym (merged_value o'' ops x y),
        )

  -- Compaction on a connection without driver errors: the tables that it leaves depend on the tables
  -- that it found only.
  pub compact-rows :
      (o : MapOrder) (l : Logs) (ops : List (CrdtOp V))
      → DistinctIds (rows_at l (key_of a u d))
      → scan_rows json (selected zero_hlc (rows_at l (key_of a u d))) ≡ ok ops
      → (t : Logs) × ((c : Conn Logs) (k : ℕ)
          → Quiet c
          → Runs (compact json a u d o) (moved c l k) tt t)
        × (rows_at t (key_of a u d)
            ≡ map (revive (kept_of o ops)) (map archive_row (rows_at l (key_of a u d))))
  compact-rows o l ops distinct scanned =
      let (m, e) = ensured_snapshots a u d l in
      let rows = rows_at l (key_of a u d) in
      let l' = ensured a u d l in
      let still : Conn Logs = record { tables = l; calls = 0; fails = λ n. false } in
      (
        final o ops rows m l',
        λ c k q. compact-Runs o (moved c l k) q ops distinct scanned m e,
        rows_at-final o ops rows m l' distinct
            (kept_have_rows o still (λ n. refl) ops distinct scanned),
      )
