-- ===== src/Storage/Database/Drivers.antt =====
-- The driver of storage/crsqlite/open.go: what the calls of the package make of its registration.
use mobile_db.Prelude.{
  ℕ, suc, Bool-cases, Option-cases, ◌==◌, nat_eq, Str, str_eq_inst, ◌≡◌, refl, ap, ◌∙◌, ◌⊎◌, inl,
  inr, true, false, List, [], ◌∷◌, arith,
}
use mobile_db.Prelude.Dict.{get, get-remove}
use mobile_db.Prelude.Exec.{Conn, Act, stmt, ◌>>=◌}
use mobile_db.Server.Device.Statuses.{Result-cases}
use mobile_db.Storage.OpLog.{contains}
use mobile_db.Storage.Database.{
  Host, ensure_driver, sql_open, ping, close_db, or_close, open_handle, meta_objects, names_at,
  create_missing, exec_ddl, apply_meta_ddl, new_backend, open_meta,
}
use mobile_db.Storage.Database.Opening.{Fresh, close_db-Removes}

-- A driver has been registered, once, exactly when the path of its library is set.
abbrev pub Registered : Host → Type 0
Registered h =
    ((h.registered ≡ 0) × (h.driver_path ≡ []))
    ⊎ ((h.registered ≡ 1) × ((h.driver_path == []) ≡ false))

-- The call keeps that.
abbrev pub KeepsRegistered : {A : Type 0} → Act Host A → Type 0
KeepsRegistered m = (c : Conn Host) → Registered c.tables → Registered (m c).1.tables

module _ {A B : Type 0} where
  >>=-KeepsRegistered :
      (m : Act Host A) (f : A → Act Host B)
      → KeepsRegistered m
      → ((a : A) → KeepsRegistered (f a))
      → KeepsRegistered (m >>= f)
  >>=-KeepsRegistered m f k k' c r = elim (Result-cases (m c).0) [
    | inl (e, q) ↦ rw q (k c r)
    | inr (a, q) ↦ rw q (k' a (m c).1 (k c r))
  ]

first_registration :
    (ext_path : Str) (h : Host)
    → (h.driver_path == ext_path) ≡ false
    → (h.driver_path == []) ≡ true
    → Registered h
    → Registered (record h { driver_path = ext_path; registered = suc h.registered })
first_registration ext_path h e z (inl (n, p)) = inr (
  ap suc n,
  ground (
    arith,
    str_eq_inst.equals_iff ext_path [],
    str_eq_inst.equals_iff h.driver_path ext_path,
    str_eq_inst.equals_iff h.driver_path [],
  ),
)
first_registration ext_path h e z (inr (n, p)) = absurd (ground (arith, z, p))

ensure_driver-KeepsRegistered : (ext_path : Str) → KeepsRegistered (ensure_driver ext_path)
unfolding ensure_driver
ensure_driver-KeepsRegistered ext_path c r = elim (Bool-cases (c.tables.driver_path == ext_path)) [
  | inl e ↦ rw e r
  | inr e ↦ elim (Bool-cases (c.tables.driver_path == [])) [
    | inl z ↦ rw (e, z) (first_registration ext_path c.tables e z r)
    | inr z ↦ rw (e, z) r
  ]
]

sql_open-KeepsRegistered : (path : Str) → KeepsRegistered (sql_open path)
unfolding sql_open stmt
sql_open-KeepsRegistered path c r = elim (Bool-cases (c.fails c.calls)) [
  | inl e ↦ rw e r
  | inr e ↦ elim (Bool-cases (c.tables.registered == 0)) [
    | inl z ↦ rw (e, z) r
    | inr z ↦ rw (e, z) r
  ]
]

ping-KeepsRegistered : (n : ℕ) → KeepsRegistered (ping n)
unfolding ping stmt
ping-KeepsRegistered n c r = elim (Bool-cases (c.fails c.calls)) [ inl e ↦ rw e r | inr e ↦ rw e r ]

pub close_db-KeepsRegistered : (n : ℕ) → KeepsRegistered (close_db n)
unfolding close_db
close_db-KeepsRegistered n c r = elim (Bool-cases (c.fails c.calls)) [
  | inl e ↦ rw e r
  | inr e ↦ rw e r
]

or_close-KeepsRegistered :
    (n : ℕ) (m : Act Host (Unit {0}))
    → KeepsRegistered m
    → KeepsRegistered (λ c. or_close n (m c).0 (m c).1)
unfolding or_close
or_close-KeepsRegistered n m k c r = elim (Result-cases (m c).0) [
  | inl (e, q) ↦ rw q (close_db-KeepsRegistered n (m c).1 (k c r))
  | inr (u, q) ↦ rw q (k c r)
]

create_missing-KeepsRegistered : (n : ℕ) (name : Str) → KeepsRegistered (create_missing n name)
unfolding create_missing stmt
create_missing-KeepsRegistered n name c r = elim (Bool-cases (c.fails c.calls)) [
  | inl e ↦ rw e r
  | inr e ↦ elim (Option-cases (get c.tables.opened n)) [
    | inl o ↦ rw (e, o) r
    | inr (path, o) ↦ elim (Bool-cases (contains name (names_at path c.tables))) [
      | inl b ↦ rw (e, o, b) r
      | inr b ↦ rw (e, o, b) r
    ]
  ]
]

exec_ddl-KeepsRegistered : (n : ℕ) (names : List Str) → KeepsRegistered (exec_ddl n names)
unfolding exec_ddl
exec_ddl-KeepsRegistered n [] c r = r
exec_ddl-KeepsRegistered n (name ∷ names) c r =
    >>=-KeepsRegistered (create_missing n name) (λ u. exec_ddl n names)
      (create_missing-KeepsRegistered n name) (λ u. exec_ddl-KeepsRegistered n names) c r

open_handle-KeepsRegistered : (path ext_path : Str) → KeepsRegistered (open_handle path ext_path)
unfolding open_handle
open_handle-KeepsRegistered path ext_path =
    >>=-KeepsRegistered (ensure_driver ext_path) _ (ensure_driver-KeepsRegistered ext_path) (λ u.
      >>=-KeepsRegistered (sql_open path) _ (sql_open-KeepsRegistered path)
        (λ n. or_close-KeepsRegistered n (ping n) (ping-KeepsRegistered n)))

apply_meta_ddl-KeepsRegistered : (n : ℕ) → KeepsRegistered (apply_meta_ddl n)
unfolding apply_meta_ddl
apply_meta_ddl-KeepsRegistered n = exec_ddl-KeepsRegistered n meta_objects

pub new_backend-KeepsRegistered :
    (path ext_path : Str) → KeepsRegistered (new_backend path ext_path)
unfolding new_backend
new_backend-KeepsRegistered path ext_path =
    >>=-KeepsRegistered (open_handle path ext_path) _ (open_handle-KeepsRegistered path ext_path)
      (λ n. or_close-KeepsRegistered n (apply_meta_ddl n) (apply_meta_ddl-KeepsRegistered n))

-- `open_meta` makes the calls of `new_backend`.
pub open_meta-new_backend :
    (path ext_path : Str) (c : Conn Host)
    → (open_meta path ext_path c).1 ≡ (new_backend path ext_path c).1
unfolding open_meta new_backend
open_meta-new_backend path ext_path c =
    let c1 = (open_handle path ext_path c).1 in
    elim (Result-cases (open_handle path ext_path c).0) [
      | inl (e, q) ↦ rw q refl
      | inr (n, q) ↦
          elim (Result-cases (or_close n (apply_meta_ddl n c1).0 (apply_meta_ddl n c1).1).0) [
            | inl (e, q') ↦ rw (q, q') refl
            | inr (m, q') ↦ rw (q, q') refl
          ]
    ]

pub close_db-Fresh : (n : ℕ) (c : Conn Host) → Fresh c.tables → Fresh (close_db n c).1.tables
close_db-Fresh n c fresh k le =
    let (gone, made) = close_db-Removes n c in
    rw gone (get-remove c.tables.opened n k ∙ ground (arith, fresh k (rw made at le)))
