-- ===== src/Storage/Database/Schema.antt =====
-- What the metadata schema's statements leave in a file.
use mobile_db.Prelude.{
  ℕ, if◌then◌else◌, Bool-cases, Option-cases, ◌==◌, nat_eq, Str, str_eq_inst, str_eq_iff, All, ◌≡◌,
  refl, sym, inl, inr, Bool, true, ◌||◌, some, List, [], ◌∷◌, arith,
}
use mathlib.Core.Path.{subst}
use mobile_db.Prelude.Dict.{get, put, get-put}
use mobile_db.Prelude.Exec.{Result, ok, Conn, stmt}
use mobile_db.Server.Device.Statuses.{Result-cases}
use mobile_db.Storage.OpLog.{contains}
use mobile_db.Storage.Database.{Host, names_at, create_missing, exec_ddl}
use mobile_db.Storage.Database.Opening.{create_missing-Leaves}

names_at-put :
    (h : Host) (p : Str) (l : List Str) (path : Str)
    → names_at path (record h { schemas = put h.schemas p l })
      ≡ (if p == path then l else names_at path h)
unfolding names_at
names_at-put h p l path =
    rw (names_at, get-put h.schemas p l path)
      (elim (Bool-cases (p == path)) [ inl e ↦ rw e refl | inr e ↦ rw e refl ])

-- A name that the schema of a file has stays there.
abbrev pub Keeps : Host → Host → Type 0
Keeps h h' =
    (path name : Str)
    → contains name (names_at path h) ≡ true
    → contains name (names_at path h') ≡ true

or_true : (b c : Bool) → c ≡ true → (b || c) ≡ true
or_true b c h = ground arith

create_missing-Keeps :
    (n : ℕ) (name : Str) (c : Conn Host) → Keeps c.tables (create_missing n name c).1.tables
unfolding create_missing stmt contains
create_missing-Keeps n name c path x k = elim (Bool-cases (c.fails c.calls)) [
  | inl e ↦ rw e k
  | inr e ↦ elim (Option-cases (get c.tables.opened n)) [
    | inl o ↦ rw (e, o) k
    | inr (p, o) ↦ elim (Bool-cases (contains name (names_at p c.tables))) [
      | inl b ↦ rw (e, o, b) k
      | inr b ↦
          rw (e, o, b)
            (rw (names_at-put c.tables p (name ∷ names_at p c.tables) path)
              (elim (Bool-cases (p == path)) [
                | inl q ↦
                    let k' =
                      subst (λ z. contains x (names_at z c.tables) ≡ true)
                        (sym ((str_eq_iff p path).0 q)) k in
                    rw q (or_true (name == x) (contains x (names_at p c.tables)) k')
                | inr q ↦ rw q k
              ]))
    ]
  ]
]

contains_head : (name : Str) (l : List Str) → contains name (name ∷ l) ≡ true
unfolding contains
contains_head name l = ground (arith, str_eq_inst.equals_iff name name)

create_missing_adds :
    (n : ℕ) (name path : Str) (c : Conn Host)
    → get c.tables.opened n ≡ some path
    → (create_missing n name c).0 ≡ ok tt
    → contains name (names_at path (create_missing n name c).1.tables) ≡ true
unfolding create_missing stmt
create_missing_adds n name path c o h = elim (Bool-cases (c.fails c.calls)) [
  | inl e ↦ absurd (let h' = (rw e at h) in cc)
  | inr e ↦ elim (Bool-cases (contains name (names_at path c.tables))) [
    | inl b ↦ rw (e, o, b) b
    | inr b ↦
        rw (e, o, b)
          (rw
            (
              names_at-put c.tables path (name ∷ names_at path c.tables) path,
              (str_eq_iff path path).1 refl,
            )
            (contains_head name (names_at path c.tables)))
  ]
]

exec_ddl-Keeps :
    (n : ℕ) (names : List Str) (c : Conn Host) → Keeps c.tables (exec_ddl n names c).1.tables
unfolding exec_ddl
exec_ddl-Keeps n [] c path x k = k
exec_ddl-Keeps n (name ∷ names) c path x k =
    let first = create_missing-Keeps n name c path x k in
    elim (Result-cases (create_missing n name c).0) [
      | inl (e, q) ↦ rw q first
      | inr (u, q) ↦ rw q (exec_ddl-Keeps n names (create_missing n name c).1 path x first)
    ]

exec_ddl_step :
    (n : ℕ) (name : Str) (names : List Str) (c : Conn Host)
    → (create_missing n name c).0 ≡ ok tt
    → exec_ddl n (name ∷ names) c ≡ exec_ddl n names (create_missing n name c).1
unfolding exec_ddl
exec_ddl_step n name names c q = rw q refl

-- What no error leaves: every one of the names.
pub exec_ddl_adds :
    (n : ℕ) (names : List Str) (path : Str) (c : Conn Host)
    → get c.tables.opened n ≡ some path
    → (exec_ddl n names c).0 ≡ ok tt
    → All (λ x. contains x (names_at path (exec_ddl n names c).1.tables) ≡ true) names
unfolding exec_ddl
exec_ddl_adds n [] path c o h = tt
exec_ddl_adds n (name ∷ names) path c o h = elim (Result-cases (create_missing n name c).0) [
  | inl (e, q) ↦ absurd (let h' = (rw q at h) in cc)
  | inr (u, q) ↦
      let c' = (create_missing n name c).1 in
      let still : get c'.tables.opened n ≡ some path = rw (create_missing-Leaves n name c).0 o in
      let first = create_missing_adds n name path c o q in
      subst
        (λ (r : Result (Unit {0}) × Conn Host).
          All (λ x. contains x (names_at path r.1.tables) ≡ true) (name ∷ names))
        (sym (exec_ddl_step n name names c q))
        (exec_ddl-Keeps n names c' path name first, exec_ddl_adds n names path c' still (rw q at h))
]
