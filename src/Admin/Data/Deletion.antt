-- ===== src/Admin/Data/Deletion.antt =====
-- Documents that an administrator has deleted.
use mobile_db.Prelude.{
  ℕ, Bool-cases, Option-cases, ◌==◌, nat_eq, pair_eq, ℤ_eq, str_eq_inst, ◌≡◌, refl, ap, ◌∙◌, inl,
  inr, false, Option, none, some, [], arith,
}
use mobile_db.Prelude.Dict.{get, get-remove, get-remove_self}
use mobile_db.Prelude.Exec.{sql_failed, Result, ok, err, Conn, stmt}
use mobile_db.Storage.OpLog.{SnapshotKey, SnapshotRow, Logs}
use mobile_db.Admin.Web.{PageRequest, reply}
use mobile_db.Admin.Data.{
  DataTexts, doc_found, get_doc, delete_doc, key_of, lacks_part, doc_read, doc_modal, doc_deleted,
  delete_page,
}

-- The row of a document, `none` also when there is no table.
abbrev pub row_at : Logs → SnapshotKey → Option SnapshotRow
row_at l key = elim l.snapshots [ none ↦ none | some m ↦ get m key ]

delete_doc_lem :
    (key : SnapshotKey) (c : Conn Logs)
    → (delete_doc key c).0 ≡ ok tt
    → let l = (delete_doc key c).1.tables in
      (row_at l key ≡ none)
      × ((j : SnapshotKey) → (key == j) ≡ false → row_at l j ≡ row_at c.tables j)
      × (l.op_logs ≡ c.tables.op_logs)
      × (l.shadows ≡ c.tables.shadows)
      × (l.datasets ≡ c.tables.datasets)
unfolding delete_doc stmt
delete_doc_lem key c h = elim (Bool-cases (c.fails c.calls)) [
  | inl e ↦ absurd (let h' = (rw (e, stmt) at h) in cc)
  | inr e ↦ elim (Option-cases c.tables.snapshots) [
    | inl e' ↦ absurd (let h' = (rw (e, e') at h) in cc)
    | inr (m, e') ↦
        rw (e, e')
          (get-remove_self m key, (λ j o. get-remove m key j ∙ rw o refl), refl, refl, refl)
  ]
]

get_doc_gone :
    (created_at : SnapshotKey → ℕ) (key : SnapshotKey) (c : Conn Logs)
    → row_at c.tables key ≡ none
    → (get_doc created_at key c).0 ≡ err sql_failed
unfolding get_doc stmt
get_doc_gone created_at key c h = elim (Bool-cases (c.fails c.calls)) [
  | inl e ↦ rw (e, stmt) refl
  | inr e ↦ elim (Option-cases c.tables.snapshots) [
    | inl e' ↦ rw (e, e') refl
    | inr (m, e') ↦ let gone = (rw e' at h) in rw (e, e', gone, doc_found) refl
  ]
]

module _ (texts : DataTexts) where
  deleted : (r : Result (Unit {0})) → (doc_deleted texts r).status ≡ 200 → r ≡ ok tt
  unfolding doc_deleted reply
  deleted (err e) h = absurd (omega (arith, h))
  deleted (ok u) h = refl

  deletion :
      (r : PageRequest) (c : Conn Logs)
      → (delete_page texts r c).0.status ≡ 200
      → (lacks_part (key_of r) ≡ false)
        × ((delete_doc (key_of r) c).0 ≡ ok tt)
        × ((delete_page texts r c).1 ≡ (delete_doc (key_of r) c).1)
  unfolding delete_page reply
  deletion r c h = elim (Bool-cases (lacks_part (key_of r))) [
    | inl e ↦ absurd (let h' = (rw e at h) in omega (arith, h'))
    | inr e ↦ (e, deleted (delete_doc (key_of r) c).0 (rw e at h), rw e refl)
  ]

  modal_gone :
      (created_at : SnapshotKey → ℕ) (r : PageRequest) (c : Conn Logs)
      → lacks_part (key_of r) ≡ false
      → row_at c.tables (key_of r) ≡ none
      → (doc_modal created_at texts r c).0 ≡ reply 404 []
  unfolding doc_modal doc_read
  modal_gone created_at r c whole gone = rw (whole, get_doc_gone created_at (key_of r) c gone) refl

  -- After a DELETE of a document that was answered with 200, asking for it is answered with 404, any
  -- other document is as before, and so are the operations, from which the document was made.
  pub delete_page-doc_modal :
      (created_at : SnapshotKey → ℕ) (r again : PageRequest) (c : Conn Logs) (other : SnapshotKey)
      → (delete_page texts r c).0.status ≡ 200
      → key_of again ≡ key_of r
      → (key_of r == other) ≡ false
      → let c' = (delete_page texts r c).1 in
        ((doc_modal created_at texts again c').0 ≡ reply 404 [])
        × (row_at c'.tables other ≡ row_at c.tables other)
        × (c'.tables.op_logs ≡ c.tables.op_logs)
        × (c'.tables.shadows ≡ c.tables.shadows)
  delete_page-doc_modal created_at r again c other h e differs =
      let (whole, done, same) = deletion r c h in
      let c' = (delete_doc (key_of r) c).1 in
      let (gone, others, logs, shadows, _) = delete_doc_lem (key_of r) c done in
      rw same (
        modal_gone created_at again c' (ap lacks_part e ∙ whole) (ap (row_at c'.tables) e ∙ gone),
        others other differs,
        logs,
        shadows,
      )
