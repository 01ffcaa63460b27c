-- ===== src/Storage/Backend/Delta.antt =====
-- What `GetDelta` of storage/crsqlite/backend.go returns for a cursor.
use mobile_db.Prelude.{
  if◌then◌else◌, Bool-cases, ◌==◌, nat_eq, pair_eq, ℤ_eq, Str, str_eq_inst, All, All-mem, mem-All,
  ◌≡◌, refl, sym, ap, ◌∙◌, inl, inr, true, false, some, List, [], ◌∷◌, Memᴰ,
}
use mobile_db.Prelude.Exec.{ok, Conn, stmt}
use mobile_db.Prelude.Exec.Runs.{Quiet, moved, Runs, Runs-pure, Runs-stmt, Runs-bind}
use mathlib.Core.Path.{subst}
use mobile_db.Core.{Hlc, zero_hlc, CrdtOp}
use mobile_db.Crdt.Hlc.{before}
use mobile_db.Crdt.Hlc.Order.{before_irrefl, before_asymm}
use mobile_db.Crdt.Merge.Picks.{not-before_trans}
use mobile_db.Storage.OpLog.{
  Logs, Json, Row, is_active, selected, scan_row, scan_rows, query_ops, ensure_dataset, read_table,
}
use mobile_db.Storage.OpLog.Ensure.{key_of, rows_at, ensured, ensure_dataset-Runs}
use mobile_db.Storage.OpLog.Queries.{
  stamp_of, is_after-before, mem-selected, mem_of_selected, op_of, Reads, scan_rows-mem,
  mem-scan_rows,
}
use mobile_db.Storage.Backend.{max_hlc, get_delta}
use mobile_db.Storage.Backend.Kept.{before_hlc-before}
use mobile_db.Storage.Backend.Merging.{read_table-some, get-ensured_self}

module _ {V : Type 0} where
  max_hlc_start : (ops : List (CrdtOp V)) (m : Hlc) → before (max_hlc m ops) m ≡ false
  unfolding max_hlc
  max_hlc_start [] m = before_irrefl m
  max_hlc_start (op ∷ ops) m = elim (Bool-cases (before m op.timestamp)) [
    | inl e ↦
        rw (before_hlc-before, e)
          (not-before_trans (max_hlc op.timestamp ops) op.timestamp m
            (max_hlc_start ops op.timestamp) (before_asymm m op.timestamp e))
    | inr e ↦ rw (before_hlc-before, e) (max_hlc_start ops m)
  ]

  max_hlc_later :
      (m : Hlc) (op : CrdtOp V) (ops : List (CrdtOp V))
      → max_hlc m (op ∷ ops) ≡ max_hlc (if before m op.timestamp then op.timestamp else m) ops
  unfolding max_hlc
  max_hlc_later m op ops = rw before_hlc-before refl

  bound_by :
      {a b : Hlc} (ops : List (CrdtOp V))
      → a ≡ b
      → All (λ op. before a op.timestamp ≡ false) ops
      → All (λ op. before b op.timestamp ≡ false) ops
  bound_by ops e p = subst (λ x. All (λ op. before x op.timestamp ≡ false) ops) e p

  -- No operation is after the largest timestamp.
  pub max_hlc-All :
      (ops : List (CrdtOp V)) (m : Hlc)
      → All (λ op. before (max_hlc m ops) op.timestamp ≡ false) ops
  max_hlc-All [] m = tt
  max_hlc-All (op ∷ ops) m = elim (Bool-cases (before m op.timestamp)) [
    | inl e ↦
        bound_by (op ∷ ops) (sym (rw e at (max_hlc_later m op ops)))
          (max_hlc_start ops op.timestamp, max_hlc-All ops op.timestamp)
    | inr e ↦
        bound_by (op ∷ ops) (sym (rw e at (max_hlc_later m op ops))) (
          not-before_trans (max_hlc m ops) m op.timestamp (max_hlc_start ops m) e,
          max_hlc-All ops m,
        )
  ]

module _ {V : Type 0} (json : Json V) where
  -- The row's value can be unmarshalled.
  abbrev pub Readable : Row → Type 0
  Readable r = (v : V) × (json.unmarshal r.value ≡ some v)

  pub scan_rows_total :
      (rows : List Row)
      → All Readable rows
      → (ops : List (CrdtOp V)) × (scan_rows json rows ≡ ok ops)
  unfolding scan_rows scan_row
  scan_rows_total [] a = ([], refl)
  scan_rows_total (r ∷ rows) a =
      let (ops, e) = scan_rows_total rows a.1 in (op_of json r a.0.0 ∷ ops, rw (a.0.1, e) refl)

  module _ (a u d : Str) where
    pub get_delta-Runs :
        (since : Hlc) (c : Conn Logs) (ops : List (CrdtOp V))
        → Quiet c
        → scan_rows json (selected since (rows_at c.tables (key_of a u d))) ≡ ok ops
        → Runs (get_delta json a u d since) c (ops, max_hlc zero_hlc ops) (ensured a u d c.tables)
    unfolding get_delta query_ops
    get_delta-Runs since c ops q e =
        let l = ensured a u d c.tables in
        let key = key_of a u d in
        Runs-bind c (ensure_dataset a u d) _ tt l _ l (ensure_dataset-Runs a u d c q) (λ k.
          Runs-bind (moved c l k) (query_ops json a u d since) _ ops l _ l
            (Runs-bind (moved c l k) (stmt (read_table key (selected since)))
              (λ rows c'. (scan_rows json rows, c')) (selected since (rows_at c.tables key)) l ops l
              (Runs-stmt (moved c l k) _ _ l q
                (read_table-some key (selected since) _ l (get-ensured_self a u d c.tables)))
              (λ k'. record { calls = k'; result = rw e refl }))
            (λ k'. Runs-pure (moved c l k') _))

    -- On a connection without driver errors, over rows whose values can be unmarshalled, a delta for
    -- a cursor with a device succeeds and is exact: each active row after the cursor is read as one
    -- of the operations returned, each operation returned is read from such a row, and no operation
    -- returned is after the new clock.
    pub get_delta_exact :
        (since : Hlc) (c : Conn Logs)
        → Quiet c
        → All Readable (rows_at c.tables (key_of a u d))
        → (since.device_id == []) ≡ false
        → (ops : List (CrdtOp V)) × ((get_delta json a u d since c).0
            ≡ ok (ops, max_hlc zero_hlc ops))
          × ((r : Row)
              → Memᴰ r (rows_at c.tables (key_of a u d))
              → is_active r ≡ true
              → before since (stamp_of r) ≡ true
              → (op : CrdtOp V) × Memᴰ op ops × Reads json r op)
          × ((op : CrdtOp V)
              → Memᴰ op ops
              → (r : Row) × Memᴰ r (rows_at c.tables (key_of a u d))
                × (is_active r ≡ true)
                × (before since (stamp_of r) ≡ true)
                × Reads json r op)
          × All (λ op. before (max_hlc zero_hlc ops) op.timestamp ≡ false) ops
    get_delta_exact since c q readable device =
        let rows = rows_at c.tables (key_of a u d) in
        let (ops, e) = scan_rows_total (selected since rows) (
          All-mem Readable (selected since rows)
            (λ r m. mem-All Readable rows readable (mem-selected since rows m).0)) in
        (
          ops,
          ap (λ p. p.0) (get_delta-Runs since c ops q e).result,
          (λ r m h h'.
              mem-scan_rows json (selected since rows) ops e
                (mem_of_selected since rows m h (is_after-before since r device ∙ h'))),
          (λ op m.
              let (r, mr, reads) = scan_rows-mem json (selected since rows) ops e m in
              let (mr', h, h') = mem-selected since rows mr in
              (r, mr', h, sym (is_after-before since r device) ∙ h', reads)),
          max_hlc-All ops zero_hlc,
        )
