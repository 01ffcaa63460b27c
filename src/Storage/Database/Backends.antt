-- ===== src/Storage/Database/Backends.antt =====
-- `NewBackend`: what it leaves open, and the schema of the file it opened.
use mobile_db.Prelude.{ℕ, nat_eq, Str, str_eq_inst, All, ◌≡◌, inl, inr, ◌∙◌, true, some, arith}
use mathlib.Core.Path.{subst}
use mobile_db.Prelude.Dict.{get}
use mobile_db.Prelude.Exec.{Result, ok, err, Conn}
use mobile_db.Server.Device.Statuses.{Result-cases}
use mobile_db.Storage.OpLog.{contains}
use mobile_db.Storage.Database.{
  Host, or_close, open_handle, meta_objects, names_at, exec_ddl, apply_meta_ddl, new_backend,
}
use mobile_db.Storage.Database.Opening.{
  Fresh, Opened, or_close-Opened, open_handle-Opened, apply_meta_ddl-Leaves,
}
use mobile_db.Storage.Database.Schema.{exec_ddl_adds}

Opened-Fresh :
    (path : Str) (h : Host) (r : Result ℕ) (h' : Host) → Opened path h r h' → Fresh h → Fresh h'
Opened-Fresh path h (err e) h' (le, same) fresh k le' = same k ∙ fresh k (omega arith)
Opened-Fresh path h (ok n) h' (s, le, free, o) fresh k le' =
    o k ∙ ground (arith, fresh k (omega arith), nat_eq.equals_iff n k)

-- All the tables and indexes of the metadata are in the file.
abbrev pub HasMeta : Str → Host → Type 0
HasMeta path h = All (λ x. contains x (names_at path h) ≡ true) meta_objects

or_close-HasMeta :
    (path : Str) (h : Host) (n m : ℕ) (c : Conn Host)
    → Opened path h (ok n) c.tables
    → (or_close n (apply_meta_ddl n c).0 (apply_meta_ddl n c).1).0 ≡ ok m
    → HasMeta path (or_close n (apply_meta_ddl n c).0 (apply_meta_ddl n c).1).1.tables
unfolding or_close apply_meta_ddl
or_close-HasMeta path h n m c (s, le, free, o) r =
    let there : get c.tables.opened n ≡ some path = ground (arith, o n, nat_eq.equals_iff n n) in
    elim (Result-cases (exec_ddl n meta_objects c).0) [
      | inl (e, q) ↦ absurd (let r' = (rw q at r) in cc)
      | inr (u, q) ↦ rw q (exec_ddl_adds n meta_objects path c there q)
    ]

new_backend-cases :
    (path ext_path : Str) (c : Conn Host)
    → Fresh c.tables
    → (Opened path c.tables (new_backend path ext_path c).0 (new_backend path ext_path c).1.tables)
      × ((n : ℕ)
          → (new_backend path ext_path c).0 ≡ ok n
          → HasMeta path (new_backend path ext_path c).1.tables)
unfolding new_backend
new_backend-cases path ext_path c fresh =
    let opened = open_handle-Opened path ext_path c fresh in
    let c1 = (open_handle path ext_path c).1 in
    elim (Result-cases (open_handle path ext_path c).0) [
      | inl (e, q) ↦ rw q (subst (λ r. Opened path c.tables r c1.tables) q opened, λ n h. absurd cc)
      | inr (n, q) ↦
          let o = subst (λ r. Opened path c.tables r c1.tables) q opened in
          rw q (
            or_close-Opened path c.tables n (apply_meta_ddl n) c1 (apply_meta_ddl-Leaves n) o,
            λ m h. or_close-HasMeta path c.tables n m c1 o h,
          )
    ]

-- Where no database is open under a number still to be given out, opening a backend that fails leaves
-- open exactly the databases that were open; one that succeeds opens one more, for the path and under
-- a number that was still to be given out and is not any more, and every table and index of the
-- metadata is in its file. Either way no database is open under a number still to be given out.
pub new_backend_all_or_nothing :
    (path ext_path : Str) (c : Conn Host)
    → Fresh c.tables
    → (Opened path c.tables (new_backend path ext_path c).0 (new_backend path ext_path c).1.tables)
      × ((n : ℕ)
          → (new_backend path ext_path c).0 ≡ ok n
          → HasMeta path (new_backend path ext_path c).1.tables)
      × Fresh (new_backend path ext_path c).1.tables
new_backend_all_or_nothing path ext_path c fresh =
    let (opened, schema) = new_backend-cases path ext_path c fresh in
    (opened, schema, Opened-Fresh path c.tables _ _ opened fresh)
