-- ===== src/Storage/Backend/Survivors.antt =====
-- The rows of a dataset after compaction hold exactly the kept operations, and every field keeps
-- its winner.
use mobile_db.Prelude.{
  Option-cases, nat_eq, pair_eq, ℤ_eq, Str, str_eq_iff, str_eq_inst, mem-All, mem-map, mem_of_map,
  ◌≡◌, refl, sym, ap, ◌∙◌, inl, inr, true, false, none, some, List, [], ◌∷◌, map, Memᴰ, arith,
}
use mobile_db.Prelude.Dict.{MapOrder}
use mobile_db.Prelude.Exec.{ok}
use mathlib.Core.Option.{some-injective}
use mathlib.Core.List.Memᴰ.{head, tail}
use mobile_db.Core.{zero_hlc, CrdtOp}
use mobile_db.Crdt.Merge.Picks.{hits, pick, pick-none}
use mobile_db.Storage.OpLog.{
  Json, Row, active, is_active, archive_row, selected, scan_row, scan_rows,
}
use mobile_db.Storage.OpLog.Queries.{
  Reads, op_of, mem-selected, mem_of_selected, scan_rows-mem, mem-scan_rows,
}
use mobile_db.Storage.OpLog.Revive.{
  DistinctIds, op_has, revive, woken, woken_of_has, mem_of_op_has, op_has_of_mem, eq_of_op_id,
}
use mobile_db.Storage.Backend.{kept_of}
use mobile_db.Storage.Backend.Kept.{pick-hits, mem-kept_of, mem_of_kept_of}

module _ {V : Type 0} (json : Json V) (o : MapOrder) (rows : List Row) (ops : List (CrdtOp V))
    (distinct : DistinctIds rows) (scanned : scan_rows json (selected zero_hlc rows) ≡ ok ops) where
  -- The rows after `ArchiveOps` and `ReactivateOps`.
  unfoldable pub compacted : List Row
  compacted = map (revive (kept_of o ops)) (map archive_row rows)

  kept_in_ops : {w : CrdtOp V} → Memᴰ w (kept_of o ops) → Memᴰ w ops
  kept_in_ops {w} m = (pick-hits w.doc_id w.field ops w (mem-kept_of o ops m)).0

  -- A kept operation is read from an active row.
  pub row_of_kept :
      {w : CrdtOp V}
      → Memᴰ w (kept_of o ops)
      → (r : Row) × Memᴰ r (selected zero_hlc rows) × Reads json r w
  row_of_kept m = scan_rows-mem json (selected zero_hlc rows) ops scanned (kept_in_ops m)

  pub Reads-id : (r : Row) {w : CrdtOp V} → Reads json r w → w.op_id ≡ r.op_id
  Reads-id r (v, read, e) = ap (λ (x : CrdtOp V). x.op_id) e

  Reads-eq : (r : Row) {w w' : CrdtOp V} → Reads json r w → Reads json r w' → w ≡ w'
  Reads-eq r (v, read, e) (v', read', e') =
      e ∙ ap (op_of json r) (some-injective v v' (sym read ∙ read')) ∙ sym e'

  wake_active : (r : Row) → is_active r ≡ true → record r { status = active } ≡ r
  unfolding is_active
  wake_active r h = ground arith

  -- A row whose op_id a kept operation has was active, and is as it was.
  selected_of_kept_id :
      {x : Row}
      → Memᴰ x rows
      → op_has x.op_id (kept_of o ops) ≡ true
      → Memᴰ x (selected zero_hlc rows)
  selected_of_kept_id {x} m h =
      let (w, mw, e) = mem_of_op_has x.op_id (kept_of o ops) h in
      let (r, mr, reads) = row_of_kept mw in
      let same : x ≡ r =
        eq_of_op_id rows distinct m (mem-selected zero_hlc rows mr).0 (e ∙ Reads-id r reads) in
      rw same mr

  -- The selection after compaction is the part of the selection before it that is kept.
  pub mem-compacted :
      {x : Row}
      → Memᴰ x (selected zero_hlc compacted)
      → Memᴰ x (selected zero_hlc rows) × (op_has x.op_id (kept_of o ops) ≡ true)
  unfolding compacted
  mem-compacted {x} m =
      let kept = kept_of o ops in
      let (m1, act, aft) = mem-selected zero_hlc _ m in
      let (x1, mx1, e1) = mem-map (revive kept) _ m1 in
      let (x0, m0, e0) = mem-map archive_row rows mx1 in
      let e : x ≡ revive kept (archive_row x0) = e1 ∙ ap (revive kept) e0 in
      let (has, woke) = woken kept x0 (ap is_active (sym e) ∙ act) in
      let sel = selected_of_kept_id m0 has in
      let same : x ≡ x0 = e ∙ woke ∙ wake_active x0 (mem-selected zero_hlc rows sel).1 in
      (rw same sel, rw same has)

  pub mem_of_compacted :
      {x : Row}
      → Memᴰ x (selected zero_hlc rows)
      → op_has x.op_id (kept_of o ops) ≡ true
      → Memᴰ x (selected zero_hlc compacted)
  unfolding compacted
  mem_of_compacted {x} m h =
      let (mr, act, aft) = mem-selected zero_hlc rows m in
      let same = woken_of_has (kept_of o ops) x h ∙ wake_active x act in
      mem_of_selected zero_hlc _
        (rw same at (mem_of_map (revive (kept_of o ops)) _ (mem_of_map archive_row rows mr))) act
        aft

  -- Every row selected after compaction can be read, since it could be before.
  scan_total :
      (rs : List Row)
      → ((x : Row) → Memᴰ x rs → (op : CrdtOp V) × Reads json x op)
      → (ops' : List (CrdtOp V)) × (scan_rows json rs ≡ ok ops')
  unfolding scan_rows scan_row
  scan_total [] h = ([], refl)
  scan_total (r ∷ rs) h =
      let (op, (v, read, e)) = h r (head refl) in
      let (rest, e') = scan_total rs (λ x m. h x (tail m)) in
      (op_of json r v ∷ rest, rw (read, e', scan_row))

  pub compacted_scan :
      (ops' : List (CrdtOp V)) × (scan_rows json (selected zero_hlc compacted) ≡ ok ops')
  compacted_scan = scan_total (selected zero_hlc compacted) (λ x m.
      let (op, mo, reads) =
        mem-scan_rows json (selected zero_hlc rows) ops scanned (mem-compacted m).0 in
      (op, reads))

  -- What is read after compaction is what was kept.
  pub kept_of_survivor :
      (ops' : List (CrdtOp V)) {op : CrdtOp V}
      → scan_rows json (selected zero_hlc compacted) ≡ ok ops'
      → Memᴰ op ops'
      → Memᴰ op (kept_of o ops)
  kept_of_survivor ops' {op} h m =
      let (x, mx, reads) = scan_rows-mem json (selected zero_hlc compacted) ops' h m in
      let (sel, has) = mem-compacted mx in
      let (w, mw, e) = mem_of_op_has x.op_id (kept_of o ops) has in
      let (r, mr, reads') = row_of_kept mw in
      let same : x ≡ r =
        eq_of_op_id rows distinct (mem-selected zero_hlc rows sel).0
          (mem-selected zero_hlc rows mr).0 (e ∙ Reads-id r reads') in
      let reads_w : Reads json x w = rw same reads' in rw (Reads-eq x reads reads_w) mw

  pub survivor_of_kept :
      (ops' : List (CrdtOp V)) {w : CrdtOp V}
      → scan_rows json (selected zero_hlc compacted) ≡ ok ops'
      → Memᴰ w (kept_of o ops)
      → Memᴰ w ops'
  survivor_of_kept ops' {w} h m =
      let (r, mr, reads) = row_of_kept m in
      let has =
        ap (λ i. op_has i (kept_of o ops)) (sym (Reads-id r reads))
        ∙ op_has_of_mem (kept_of o ops) m in
      let (op, mo, reads') =
        mem-scan_rows json (selected zero_hlc compacted) ops' h (mem_of_compacted mr has) in
      rw (Reads-eq r reads reads') mo

  -- An operation that writes a field is no survivor of a list with no winner there.
  some_writes :
      (ops' : List (CrdtOp V)) (d f : Str) (w : CrdtOp V)
      → Memᴰ w ops × (w.doc_id ≡ d) × (w.field ≡ f)
      → Memᴰ w ops'
      → pick d f none ops' ≡ none
      → ⊥
  some_writes ops' d f w (_, e, e') m h =
      let miss = mem-All (λ x. hits d f x ≡ false) ops' (pick-none d f ops' h) m in
      ground (arith, miss, str_eq_iff w.doc_id d, str_eq_iff w.field f)

  kept_winner :
      (ops' : List (CrdtOp V)) (d f : Str) (w : CrdtOp V)
      → scan_rows json (selected zero_hlc compacted) ≡ ok ops'
      → pick d f none ops' ≡ some w
      → pick d f none ops ≡ some w
  kept_winner ops' d f w h e =
      let (m, ed, ef) = pick-hits d f ops' w e in
      rw (← ed, ← ef) (mem-kept_of o ops (kept_of_survivor ops' h m))

  -- Every field has the winner that it had.
  pub same_winner :
      (ops' : List (CrdtOp V)) (d f : Str)
      → scan_rows json (selected zero_hlc compacted) ≡ ok ops'
      → pick d f none ops' ≡ pick d f none ops
  same_winner ops' d f h = elim (Option-cases (pick d f none ops)) [
    | inr (w, e) ↦ elim (Option-cases (pick d f none ops')) [
      | inl e' ↦ absurd (
          some_writes ops' d f w (pick-hits d f ops w e)
            (survivor_of_kept ops' h (mem_of_kept_of o ops d f e)) e')
      | inr (w', e') ↦ rw e' (sym (kept_winner ops' d f w' h e'))
    ]
    | inl e ↦ elim (Option-cases (pick d f none ops')) [
      | inl e' ↦ rw (e, e')
      | inr (w', e') ↦ cc (e, kept_winner ops' d f w' h e')
    ]
  ]
