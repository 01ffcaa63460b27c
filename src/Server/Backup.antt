-- ===== src/Server/Backup.antt =====
-- server/backup/backup.go: the copies of the database files. Files are their contents by path;
-- `filepath.Join`, `filepath.Base` and the text of the time are arguments. Any call may fail, and a
-- copy that fails has written some part of the contents.
pub mod Loop
pub mod Stopping
pub mod OneFile
pub mod Copies
use mobile_db.Prelude.{
  suc, if◌then◌else◌, nat_eq, pair_eq, ℤ_eq, Str, codes, str_eq_inst, Option, none, some, List, [],
  ◌∷◌, ◌++◌,
}
use mobile_db.Prelude.Dict.{Dict, get, put}
use mobile_db.Prelude.Exec.{sql_failed, ok, err, Conn, Act, pure, stmt, ◌>>=◌, ◌>>◌}

pub record Files : Type 0 where
  pub contents : Dict Str Str
  pub dirs : List Str

-- `os.MkdirAll`
unfoldable pub mkdir_all : Str → Act Files (Unit {0})
mkdir_all dir = stmt (λ f. some (tt, record f { dirs = dir ∷ f.dirs }))

-- `os.Open`, an error when there is no such file
unfoldable pub open_source : Str → Act Files (Unit {0})
open_source src = stmt (λ f. elim (get f.contents src) [ none ↦ none | some text ↦ some (tt, f) ])

-- `os.OpenFile` with O_CREATE and O_TRUNC
unfoldable pub open_target : Str → Act Files (Unit {0})
open_target dst = stmt (λ f. some (tt, record f { contents = put f.contents dst [] }))

-- The contents of a file that is open.
unfoldable pub text_of : Option Str → Str
text_of none = []
text_of (some text) = text

-- `io.Copy`: `part` is what a copy that fails has written.
unfoldable pub copy_bytes : (Str → Str) → Str → Str → Act Files (Unit {0})
unfolding text_of
copy_bytes part src dst c =
    let text = text_of (get c.tables.contents src) in
    let with_text : Str → Files = λ t. record c.tables { contents = put c.tables.contents dst t } in
    let next : Files → Conn Files = λ f. record c { tables = f; calls = suc c.calls } in
    if c.fails c.calls
    then (err sql_failed, next (with_text (part text)))
    else (ok tt, next (with_text text))

unfoldable pub copy_file : (Str → Str) → Str → Str → Act Files (Unit {0})
unfolding open_source open_target copy_bytes
copy_file part src dst = do open_source src; open_target dst; copy_bytes part src dst

module _ (join : Str → Str → Str) (base : Str → Str) (destination : Str) where
  -- `filepath.Join(Destination, fmt.Sprintf("%s_%s.db", filepath.Base(src), ts))`
  unfoldable pub target : Str → Str → Str
  target ts src = join destination (base src ++ (codes "_" ++ (ts ++ codes ".db")))

module _ (join : Str → Str → Str) (base : Str → Str) (part : Str → Str) (destination : Str) where
  unfoldable pub backup_file : Str → Str → Act Files (Unit {0})
  unfolding mkdir_all copy_file target
  backup_file ts src = do
    mkdir_all destination
    copy_file part src (target join base destination ts src)

  -- `RunOnce`, with the time of its start
  unfoldable pub run_once : Str → List Str → Act Files (Unit {0})
  unfolding backup_file
  run_once ts [] = pure tt
  run_once ts (src ∷ sources) = do backup_file ts src; run_once ts sources
