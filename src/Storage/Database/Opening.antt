-- ===== src/Storage/Database/Opening.antt =====
-- Opening a backend: all of it, or nothing is left open.
use mobile_db.Prelude.{
  ℕ, suc, ◌≤◌, if◌then◌else◌, Bool-cases, Option-cases, ◌==◌, nat_eq, pair_eq, ℤ_eq, Str,
  str_eq_inst, ◌≡◌, refl, ◌∙◌, ◌⊎◌, inl, inr, none, some, List, [], ◌∷◌, arith,
}
use mathlib.Core.Path.{subst}
use mobile_db.Prelude.Dict.{get, put, remove, get-put, get-remove}
use mobile_db.Prelude.Exec.{sql_failed, Result, ok, err, Conn, Act, stmt}
use mobile_db.Server.Device.Statuses.{Result-cases}
use mobile_db.Storage.OpLog.{contains}
use mobile_db.Storage.Database.{
  Host, ensure_driver, sql_open, ping, close_db, or_close, open_handle, meta_objects, names_at,
  create_missing, exec_ddl, apply_meta_ddl,
}

-- No database is open under a number that is still to be given out.
abbrev pub Fresh : Host → Type 0
Fresh h = (k : ℕ) → h.made ≤ k → get h.opened k ≡ none

-- The databases of `h` are open and no other but, when there is a result, a new one for `path`, under
-- a number that was still to be given out and is not any more.
abbrev pub Opened : Str → Host → Result ℕ → Host → Type 0
Opened path h (err e) h' = (h.made ≤ h'.made) × ((k : ℕ) → get h'.opened k ≡ get h.opened k)
Opened path h (ok n) h' =
    (suc n ≤ h'.made)
    × (h.made ≤ n)
    × (get h.opened n ≡ none)
    × ((k : ℕ) → get h'.opened k ≡ (if n == k then some path else get h.opened k))

-- The call changes no open database.
abbrev Leaves : {A : Type 0} → Act Host A → Type 0
Leaves m =
    (c : Conn Host)
    → ((m c).1.tables.opened ≡ c.tables.opened) × ((m c).1.tables.made ≡ c.tables.made)

ensure_driver-Leaves : (ext_path : Str) → Leaves (ensure_driver ext_path)
unfolding ensure_driver
ensure_driver-Leaves ext_path c = ground arith

ping-Leaves : (n : ℕ) → Leaves (ping n)
unfolding ping stmt
ping-Leaves n c = ground arith

sql_open-cases :
    (path : Str) (c : Conn Host)
    → (((sql_open path c).0 ≡ err sql_failed) × ((sql_open path c).1.tables ≡ c.tables))
      ⊎ (((sql_open path c).0 ≡ ok c.tables.made)
          × ((sql_open path c).1.tables ≡ record c.tables {
            opened = put c.tables.opened c.tables.made path;
            made = suc c.tables.made;
          }))
unfolding sql_open stmt
sql_open-cases path c = elim (Bool-cases (c.fails c.calls)) [
  | inl e ↦ rw e (inl (refl, refl))
  | inr e ↦ elim (Bool-cases (c.tables.registered == 0)) [
    | inl z ↦ rw (e, z) (inl (refl, refl))
    | inr z ↦ rw (e, z) (inr (refl, refl))
  ]
]

pub create_missing-Leaves : (n : ℕ) (name : Str) → Leaves (create_missing n name)
unfolding create_missing stmt
create_missing-Leaves n name c = elim (Bool-cases (c.fails c.calls)) [
  | inl e ↦ rw e (refl, refl)
  | inr e ↦ elim (Option-cases (get c.tables.opened n)) [
    | inl o ↦ rw (e, o) (refl, refl)
    | inr (path, o) ↦ elim (Bool-cases (contains name (names_at path c.tables))) [
      | inl b ↦ rw (e, o, b) (refl, refl)
      | inr b ↦ rw (e, o, b) (refl, refl)
    ]
  ]
]

exec_ddl-Leaves : (n : ℕ) (names : List Str) → Leaves (exec_ddl n names)
unfolding exec_ddl
exec_ddl-Leaves n [] c = (refl, refl)
exec_ddl-Leaves n (name ∷ names) c =
    let first = create_missing-Leaves n name c in
    elim (Result-cases (create_missing n name c).0) [
      | inl (e, q) ↦ rw q first
      | inr (u, q) ↦
          let rest = exec_ddl-Leaves n names (create_missing n name c).1 in
          rw q (rest.0 ∙ first.0, rest.1 ∙ first.1)
    ]

pub close_db-Removes :
    (n : ℕ) (c : Conn Host)
    → ((close_db n c).1.tables.opened ≡ remove c.tables.opened n)
      × ((close_db n c).1.tables.made ≡ c.tables.made)
unfolding close_db
close_db-Removes n c = elim (Bool-cases (c.fails c.calls)) [
  | inl e ↦ rw e (refl, refl)
  | inr e ↦ rw e (refl, refl)
]

-- Closing the new database leaves open what was open before it.
pub close_new :
    (path : Str) (h : Host) (n : ℕ) (c : Conn Host)
    → Opened path h (ok n) c.tables
    → (k : ℕ) → get (close_db n c).1.tables.opened k ≡ get h.opened k
close_new path h n c (s, le, free, o) k =
    rw (close_db-Removes n c).0
      (get-remove c.tables.opened n k ∙ ground (arith, o k, free, nat_eq.equals_iff n k))

-- A call on the new database that fails closes it.
pub or_close-Opened :
    (path : Str) (h : Host) (n : ℕ) (m : Act Host (Unit {0})) (c : Conn Host)
    → Leaves m
    → Opened path h (ok n) c.tables
    → Opened path h (or_close n (m c).0 (m c).1).0 (or_close n (m c).0 (m c).1).1.tables
unfolding or_close
or_close-Opened path h n m c l (s, le, free, o) =
    let (same, same') = l c in
    elim (Result-cases (m c).0) [
      | inl (e, q) ↦ rw q (
        omega (arith, (close_db-Removes n (m c).1).1, same', s, le),
        close_new path h n (m c).1 (rw same' s, le, free, λ k. rw same (o k)),
      )
      | inr (u, q) ↦ rw q (rw same' s, le, free, λ k. rw same (o k))
    ]

sql_open-Opened :
    (path : Str) (h : Host) (c : Conn Host)
    → c.tables.opened ≡ h.opened
    → c.tables.made ≡ h.made
    → Fresh h
    → Opened path h (sql_open path c).0 (sql_open path c).1.tables
sql_open-Opened path h c same same' fresh = elim (sql_open-cases path c) [
  | inl (r, t) ↦ rw (r, t, same, same') (omega arith, λ k. refl)
  | inr (r, t) ↦
      rw (r, t, same, same')
        (omega arith, omega arith, fresh h.made (omega arith), λ k. get-put h.opened h.made path k)
]

pub open_handle-Opened :
    (path ext_path : Str) (c : Conn Host)
    → Fresh c.tables
    → Opened path c.tables (open_handle path ext_path c).0 (open_handle path ext_path c).1.tables
unfolding open_handle
open_handle-Opened path ext_path c fresh =
    let (same, same') = ensure_driver-Leaves ext_path c in
    let c1 = (ensure_driver ext_path c).1 in
    elim (Result-cases (ensure_driver ext_path c).0) [
      | inl (e, q) ↦ rw q (rw same' (omega arith), λ k. rw same refl)
      | inr (u, q) ↦
          let opened = sql_open-Opened path c.tables c1 same same' fresh in
          let c2 = (sql_open path c1).1 in
          rw q (elim (Result-cases (sql_open path c1).0) [
            | inl (e, q') ↦ rw q' (subst (λ r. Opened path c.tables r c2.tables) q' opened)
            | inr (n, q') ↦ rw q' (
                or_close-Opened path c.tables n (ping n) c2 (ping-Leaves n)
                  (subst (λ r. Opened path c.tables r c2.tables) q' opened))
          ])
    ]

pub apply_meta_ddl-Leaves : (n : ℕ) → Leaves (apply_meta_ddl n)
unfolding apply_meta_ddl
apply_meta_ddl-Leaves n = exec_ddl-Leaves n meta_objects
