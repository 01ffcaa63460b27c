-- ===== src/Server/Backup/OneFile.antt =====
-- What one copy of server/backup.go has copied, and which files its calls leave alone.
use mobile_db.Prelude.{
  Bool-cases, Option-cases, ◌==◌, nat_eq, pair_eq, ℤ_eq, Str, str_eq_inst, ◌≡◌, refl, sym, ap, ◌∙◌,
  inl, inr, false, Option, some, [],
}
use mobile_db.Prelude.Dict.{Dict, get, put, get-put, get-put_self}
use mobile_db.Prelude.Exec.{ok, Conn, Act, stmt, ◌>>◌}
use mobile_db.Server.Device.Statuses.{Result-cases}
use mobile_db.Server.Backup.{
  Files, mkdir_all, open_source, open_target, text_of, copy_bytes, copy_file,
}

-- The contents at a path after a call, and before it.
abbrev pub at : Str → Conn Files → Option Str
at path c = get c.tables.contents path

-- A call that leaves the file at a path alone, whatever fails.
abbrev pub LeavesFile : Str → Act Files (Unit {0}) → Type 0
LeavesFile path m = (c : Conn Files) → at path (m c).1 ≡ at path c

pub then-LeavesFile :
    (path : Str) (m n : Act Files (Unit {0}))
    → LeavesFile path m
    → LeavesFile path n
    → LeavesFile path (m >> n)
then-LeavesFile path m n keeps keeps' c = elim (Result-cases (m c).0) [
  | inl (e, e') ↦ rw e' (keeps c)
  | inr (u, e') ↦ rw e' (keeps' (m c).1 ∙ keeps c)
]

pub mkdir_all-LeavesFile : (path dir : Str) → LeavesFile path (mkdir_all dir)
unfolding mkdir_all stmt
mkdir_all-LeavesFile path dir c = elim (Bool-cases (c.fails c.calls)) [
  | inl e ↦ rw (e, stmt) refl
  | inr e ↦ rw (e, stmt) refl
]

pub open_source-LeavesFile : (path src : Str) → LeavesFile path (open_source src)
unfolding open_source stmt
open_source-LeavesFile path src c = elim (Bool-cases (c.fails c.calls)) [
  | inl e ↦ rw (e, stmt) refl
  | inr e ↦ elim (Option-cases (get c.tables.contents src)) [
    | inl e' ↦ rw (e, e') refl
    | inr (t, e') ↦ rw (e, e') refl
  ]
]

other_file :
    (m : Dict Str Str) (dst path t : Str)
    → (dst == path) ≡ false
    → get (put m dst t) path ≡ get m path
other_file m dst path t h = get-put m dst t path ∙ rw h refl

pub open_target-LeavesFile :
    (path dst : Str) → (dst == path) ≡ false → LeavesFile path (open_target dst)
unfolding open_target stmt
open_target-LeavesFile path dst h c = elim (Bool-cases (c.fails c.calls)) [
  | inl e ↦ rw (e, stmt) refl
  | inr e ↦ rw (e, stmt) (other_file c.tables.contents dst path [] h)
]

pub copy_bytes-LeavesFile :
    (part : Str → Str) (path src dst : Str)
    → (dst == path) ≡ false
    → LeavesFile path (copy_bytes part src dst)
unfolding copy_bytes
copy_bytes-LeavesFile part path src dst h c =
    let text = text_of (get c.tables.contents src) in
    elim (Bool-cases (c.fails c.calls)) [
      | inl e ↦ rw e (other_file c.tables.contents dst path (part text) h)
      | inr e ↦ rw e (other_file c.tables.contents dst path text h)
    ]

pub then_ok :
    (m n : Act Files (Unit {0})) (c : Conn Files)
    → ((m >> n) c).0 ≡ ok tt
    → ((m c).0 ≡ ok tt) × ((n (m c).1).0 ≡ ok tt) × (((m >> n) c).1 ≡ (n (m c).1).1)
then_ok m n c h = elim (Result-cases (m c).0) [
  | inl (e, e') ↦ absurd (let h' = (rw e' at h) in cc)
  | inr (u, e') ↦ (e', rw e' at h, rw e' refl)
]

open_source_lem :
    (src : Str) (c : Conn Files)
    → (open_source src c).0 ≡ ok tt
    → at src c ≡ some (text_of (at src c))
unfolding open_source stmt text_of
open_source_lem src c h = elim (Option-cases (get c.tables.contents src)) [
  | inr (t, e) ↦ rw e refl
  | inl e ↦ elim (Bool-cases (c.fails c.calls)) [
    | inl f ↦ absurd (let h' = (rw (f, stmt) at h) in cc)
    | inr f ↦ absurd (let h' = (rw (f, e) at h) in cc)
  ]
]

copy_bytes_lem :
    (part : Str → Str) (src dst : Str) (c : Conn Files)
    → (copy_bytes part src dst c).0 ≡ ok tt
    → at dst (copy_bytes part src dst c).1 ≡ some (text_of (at src c))
unfolding copy_bytes
copy_bytes_lem part src dst c h = elim (Bool-cases (c.fails c.calls)) [
  | inl e ↦ absurd (let h' = (rw e at h) in cc)
  | inr e ↦ rw e (get-put_self c.tables.contents dst (text_of (get c.tables.contents src)))
]

-- A copy that returns without an error has given the target the contents of the source.
pub copy_file_lem :
    (part : Str → Str) (src dst : Str) (c : Conn Files)
    → (dst == src) ≡ false
    → (copy_file part src dst c).0 ≡ ok tt
    → at dst (copy_file part src dst c).1 ≡ at src c
unfolding copy_file
copy_file_lem part src dst c h done =
    let opened = open_source src in
    let made = open_target dst in
    let copied = copy_bytes part src dst in
    let (first, rest, same) = then_ok opened (made >> copied) c done in
    let c1 = (opened c).1 in
    let (second, third, same') = then_ok made copied c1 rest in
    let c2 = (made c1).1 in
    let unread : at src c2 ≡ at src c =
      open_target-LeavesFile src dst h c1 ∙ open_source-LeavesFile src src c in
    ap (at dst) same
    ∙ ap (at dst) same'
    ∙ copy_bytes_lem part src dst c2 third
    ∙ ap (λ o. some (text_of o)) unread
    ∙ sym (open_source_lem src c first)
