-- ===== src/Storage/OpLog/Inserts.antt =====
-- Insertion of operations, once for each op_id.
use mobile_db.Prelude.{
  if◌then◌else◌, ◌==◌, nat_eq, pair_eq, ℤ_eq, Str, str_eq_self, str_eq_iff, str_eq_inst, All, ◌≡◌,
  refl, Bool, true, false, ◌||◌, none, some, List, [], ◌∷◌, arith,
}
use mobile_db.Prelude.Dict.{get, put, get-put, get-put_self}
use mobile_db.Prelude.Exec.{Conn, stmt}
use mobile_db.Prelude.Exec.Runs.{Quiet, moved, Runs, Runs-pure, Runs-stmt, Runs-bind}
use mobile_db.Core.{CrdtOp}
use mobile_db.Storage.OpLog.{Logs, Json, Row, on_table, exec_all, insert_row, row_of}

-- The tables with the rows of one of them given anew.
abbrev pub with_rows : Logs → Str → List Row → Logs
with_rows l key rows = record l { op_logs = put l.op_logs key rows }

pub on_table-some :
    (key : Str) (f : List Row → List Row) (rows : List Row) (l : Logs)
    → get l.op_logs key ≡ some rows
    → on_table key f l ≡ some (tt, record l { op_logs = put l.op_logs key (f rows) })
unfolding on_table
on_table-some key f rows l h = rw (h, on_table)

module _ {V : Type 0} (json : Json V) where
  -- The text that an operation's value is stored as.
  unfoldable pub text_of : CrdtOp V → Str
  text_of op = elim (json.marshal op.value) [ none ↦ [] | some s ↦ s ]

  -- `json.Marshal` accepts the value.
  abbrev pub Marshals : CrdtOp V → Type 0
  Marshals op = json.marshal op.value ≡ some (text_of op)

  -- What the loop of a prepared insertion makes of the rows.
  unfoldable pub write_all : (Row → List Row → List Row) → List (CrdtOp V) → List Row → List Row
  write_all write [] rows = rows
  write_all write (op ∷ ops) rows = write_all write ops (write (row_of op (text_of op)) rows)

  -- The tables after that loop.
  unfoldable pub tables_after :
      (Row → List Row → List Row) → Str → List (CrdtOp V) → List Row → Logs → Logs
  tables_after write key [] rows l = l
  tables_after write key (op ∷ ops) rows l =
      let rows' = write (row_of op (text_of op)) rows in
      tables_after write key ops rows' (with_rows l key rows')

  pub exec_all-Runs :
      (write : Row → List Row → List Row) (key : Str) (ops : List (CrdtOp V)) (rows : List Row)
      (c : Conn Logs)
      → Quiet c
      → get c.tables.op_logs key ≡ some rows
      → All Marshals ops
      → Runs (exec_all json key write ops) c tt (tables_after write key ops rows c.tables)
  unfolding exec_all tables_after
  exec_all-Runs write key [] rows c q h m = Runs-pure c tt
  exec_all-Runs write key (op ∷ ops) rows c q h m =
      let rows' = write (row_of op (text_of op)) rows in
      let l = with_rows c.tables key rows' in
      rw (m.0, exec_all)
        (Runs-bind c (stmt (on_table key (write (row_of op (text_of op)))))
          (λ _. exec_all json key write ops) tt l tt (tables_after write key ops rows' l)
          (Runs-stmt c _ tt l q (on_table-some key _ rows c.tables h))
          (λ k.
            exec_all-Runs write key ops rows' (moved c l k) q
              (get-put_self c.tables.op_logs key rows') m.1))

  -- The loop changes the rows of its own table, and nothing else.
  pub get-tables_after :
      (write : Row → List Row → List Row) (key j : Str) (ops : List (CrdtOp V)) (rows : List Row)
      (l : Logs)
      → get l.op_logs key ≡ some rows
      → get (tables_after write key ops rows l).op_logs j
        ≡ (if key == j then some (write_all write ops rows) else get l.op_logs j)
  unfolding tables_after write_all
  get-tables_after write key j [] rows l h = ground (arith, str_eq_iff key j)
  get-tables_after write key j (op ∷ ops) rows l h =
      let rows' = write (row_of op (text_of op)) rows in
      ground (
        arith,
        get-tables_after write key j ops rows' (with_rows l key rows')
            (get-put_self l.op_logs key rows'),
        get-put l.op_logs key rows' j,
      )

  pub tables_after-rest :
      (write : Row → List Row → List Row) (key : Str) (ops : List (CrdtOp V)) (rows : List Row)
      (l : Logs)
      → ((tables_after write key ops rows l).snapshots ≡ l.snapshots)
        × ((tables_after write key ops rows l).shadows ≡ l.shadows)
        × ((tables_after write key ops rows l).datasets ≡ l.datasets)
  unfolding tables_after
  tables_after-rest write key [] rows l = (refl, refl, refl)
  tables_after-rest write key (op ∷ ops) rows l =
      let rows' = write (row_of op (text_of op)) rows in
      tables_after-rest write key ops rows' (with_rows l key rows')

-- Some row has the op_id.
unfoldable pub has_id : Str → List Row → Bool
has_id i [] = false
has_id i (x ∷ xs) = x.op_id == i || has_id i xs

pub has_id-insert_row :
    (i : Str) (r : Row) (rows : List Row)
    → has_id i (insert_row r rows) ≡ (r.op_id == i || has_id i rows)
unfolding has_id insert_row
has_id-insert_row i r [] = refl
has_id-insert_row i r (x ∷ xs) = ground (
  arith,
  has_id-insert_row i r xs,
  str_eq_iff x.op_id r.op_id,
  str_eq_iff x.op_id i,
  str_eq_iff r.op_id i,
)

pub insert_row_present :
    (r : Row) (rows : List Row) → has_id r.op_id rows ≡ true → insert_row r rows ≡ rows
unfolding has_id insert_row
insert_row_present r [] h = cc
insert_row_present r (x ∷ xs) h = ground (arith, insert_row_present r xs)

module _ {V : Type 0} (json : Json V) where
  has_id-write_all :
      (i : Str) (ops : List (CrdtOp V)) (rows : List Row)
      → has_id i rows ≡ true
      → has_id i (write_all json insert_row ops rows) ≡ true
  unfolding write_all
  has_id-write_all i [] rows h = h
  has_id-write_all i (op ∷ ops) rows h =
      has_id-write_all i ops (insert_row (row_of op (text_of json op)) rows)
        (ground (arith, has_id-insert_row i (row_of op (text_of json op)) rows))

  -- After the loop every operation's op_id has a row.
  pub write_all-has_id :
      (ops : List (CrdtOp V)) (rows : List Row)
      → All (λ op. has_id op.op_id (write_all json insert_row ops rows) ≡ true) ops
  unfolding write_all row_of
  write_all-has_id [] rows = tt
  write_all-has_id (op ∷ ops) rows =
      let rows' = insert_row (row_of op (text_of json op)) rows in
      (
        has_id-write_all op.op_id ops rows' (
            ground (
              arith,
              has_id-insert_row op.op_id (row_of op (text_of json op)) rows,
              str_eq_self op.op_id,
            )),
        write_all-has_id ops rows',
      )

  -- Where every op_id has a row the loop changes nothing.
  pub write_all_present :
      (ops : List (CrdtOp V)) (rows : List Row)
      → All (λ op. has_id op.op_id rows ≡ true) ops
      → write_all json insert_row ops rows ≡ rows
  unfolding write_all row_of
  write_all_present [] rows h = refl
  write_all_present (op ∷ ops) rows h =
      rw (insert_row_present (row_of op (text_of json op)) rows h.0)
        (write_all_present ops rows h.1)
