-- ===== src/Storage/Backend/Held.antt =====
-- Compaction keeps what a dataset's table holds.
use mobile_db.Prelude.{
  Option-cases, nat_eq, pair_eq, ℤ_eq, Str, str_eq_self, str_eq_inst, All, mem-All, ◌≡◌, sym, ap,
  ◌∙◌, inl, inr, true, false, none, List, [], ◌∷◌, map,
}
use mobile_db.Prelude.Dict.{MapOrder}
use mobile_db.Prelude.Exec.{ok}
use mobile_db.Core.{Hlc, zero_hlc, CrdtOp}
use mobile_db.Crdt.Hlc.{before}
use mobile_db.Crdt.Merge.Picks.{hits, pick, pick-Picked, pick-none, not-before_trans}
use mobile_db.Storage.OpLog.{Json, Row, archive_row, selected, scan_rows}
use mobile_db.Storage.OpLog.Queries.{
  stamp_of, Reads, Reads-parts, mem-selected, mem_of_selected, mem-scan_rows,
}
use mobile_db.Storage.OpLog.Revive.{
  op_has, revive, op_has_of_mem, archived-DistinctIds, revived-DistinctIds, value-revived,
}
use mobile_db.Storage.Backend.{kept_of}
use mobile_db.Storage.Backend.Kept.{pick-hits, mem_of_kept_of}
use mobile_db.Storage.Backend.Delta.{Readable}
use mobile_db.Storage.Backend.Survivors.{compacted, row_of_kept, Reads-id, mem_of_compacted}
use mobile_db.Storage.Backend.Holds.{Holds, Sound}

revived-Readable :
    {V : Type 0} (json : Json V) (ops : List (CrdtOp V)) (rows : List Row)
    → All (Readable json) rows
    → All (Readable json) (map (revive ops) (map archive_row rows))
revived-Readable json ops [] h = tt
revived-Readable json ops (x ∷ rows) h = (rw value-revived h.0, revived-Readable json ops rows h.1)

module _ {V : Type 0} (json : Json V) (o : MapOrder) (rows : List Row) (ops : List (CrdtOp V)) where
  -- The rows after a compaction that has read `ops`.
  abbrev pub compacted_rows : List Row
  compacted_rows = map (revive (kept_of o ops)) (map archive_row rows)

  pub compacted-Sound : Sound json rows → Sound json compacted_rows
  compacted-Sound s = record {
    distinct = revived-DistinctIds (kept_of o ops) _ (archived-DistinctIds rows s.distinct);
    readable = revived-Readable json (kept_of o ops) rows s.readable;
  }

  Reads-hits :
      (d f : Str) (r : Row) (op : CrdtOp V)
      → r.doc_id ≡ d
      → r.field ≡ f
      → Reads json r op
      → hits d f op ≡ true
  Reads-hits d f r op e e' reads =
      let (doc, field, stamp) = Reads-parts json r op reads in
      rw (doc, field, e, e', str_eq_self d, str_eq_self f)

  -- The winner of a field is held after a compaction, and it is not older than what was held.
  pub compacted-Holds :
      (d f : Str) (t : Hlc)
      → Sound json rows
      → scan_rows json (selected zero_hlc rows) ≡ ok ops
      → Holds d f t rows
      → Holds d f t compacted_rows
  unfolding compacted
  compacted-Holds d f t s scanned h =
      let sel = mem_of_selected zero_hlc rows h.present h.active h.positive in
      let (op, mo, reads) = mem-scan_rows json (selected zero_hlc rows) ops scanned sel in
      let hit = Reads-hits d f h.row op h.doc h.field reads in
      elim (Option-cases (pick d f none ops)) [
        | inl none_hit ↦
            absurd (
              let miss = mem-All (λ x. hits d f x ≡ false) ops (pick-none d f ops none_hit) mo in
              cc)
        | inr (w, won) ↦
            let picked = pick-Picked d f none ops w won in
            let mk = mem_of_kept_of o ops d f won in
            let (_, doc, field) = pick-hits d f ops w won in
            let (r, mr, reads') = row_of_kept json o rows ops s.distinct scanned mk in
            let (doc', field', stamp') = Reads-parts json r w reads' in
            let has =
              ap (λ i. op_has i (kept_of o ops))
                (sym (Reads-id json o rows ops s.distinct scanned r reads'))
              ∙ op_has_of_mem (kept_of o ops) mk in
            let (present, act, pos) =
              mem-selected zero_hlc compacted_rows
                (mem_of_compacted json o rows ops s.distinct scanned mr has) in
            let last =
              mem-All (λ (x : CrdtOp V). hits d f x ≡ true → before w.timestamp x.timestamp ≡ false)
                ops picked.latest mo hit in
            record {
              row = r;
              present = present;
              active = act;
              positive = pos;
              doc = sym doc' ∙ doc;
              field = sym field' ∙ field;
              newer =
                  not-before_trans (stamp_of r) (stamp_of h.row) t
                    (rw (stamp', (Reads-parts json h.row op reads).2) at last) h.newer;
            }
      ]
