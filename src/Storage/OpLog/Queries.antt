-- ===== src/Storage/OpLog/Queries.antt =====
-- The rows that a query of storage/crsqlite/data.go returns: which, and in which order.
use mobile_db.Prelude.{
  Bool-cases, ◌==◌, nat_eq, pair_eq, ℤ_eq, str_eq_inst, All, All-mem, mem-All, mem-select,
  mem_of_select, ◌≡◌, refl, sym, ap, ◌⊎◌, inl, inr, true, false, ◌&&◌, Option, none, some, List, [],
  ◌∷◌, Memᴰ, arith,
}
use mobile_db.Prelude.Exec.{Result, ok, err}
use mathlib.Core.List.Memᴰ.{head, tail, cases_cons}
use mobile_db.Crdt.Merge.Picks.{not-before_trans}
use mobile_db.Core.{Hlc, CrdtOp}
use mobile_db.Crdt.Hlc.{before}
use mobile_db.Crdt.Hlc.Order.{before_asymm}
use mobile_db.Storage.OpLog.{
  Json, Row, is_active, is_after, row_lt, place, order_rows, selected, scan_row, scan_rows,
}

-- The timestamp that a row stands for.
abbrev pub stamp_of : Row → Hlc
stamp_of r = record { wall_time = r.ts_wall; logical = r.ts_logic; device_id = r.device_id }

-- A cursor with a device selects what lies after it in the order of timestamps.
pub is_after-before :
    (since : Hlc) (r : Row)
    → (since.device_id == []) ≡ false
    → is_after since r ≡ before since (stamp_of r)
unfolding is_after before
is_after-before since r h = ground (arith, h)

row_lt-before : (a b : Row) → row_lt a b ≡ before (stamp_of a) (stamp_of b)
unfolding row_lt before
row_lt-before a b = refl

mem-place : (r : Row) (xs : List Row) {x : Row} → Memᴰ x (place r xs) → (x ≡ r) ⊎ Memᴰ x xs
unfolding place
mem-place r [] m = cases_cons m
mem-place r (y ∷ ys) m = elim (Bool-cases (row_lt y r)) [
  | inr e ↦ cases_cons (rw e at m)
  | inl e ↦ elim (cases_cons (rw e at m)) [
    | inl q ↦ inr (head q)
    | inr m' ↦ elim (mem-place r ys m') [ inl q ↦ inl q | inr m'' ↦ inr (tail m'') ]
  ]
]

pub mem-order_rows : (xs : List Row) {x : Row} → Memᴰ x (order_rows xs) → Memᴰ x xs
unfolding order_rows
mem-order_rows [] m = m
mem-order_rows (r ∷ xs) m = elim (mem-place r (order_rows xs) m) [
  | inl e ↦ head e
  | inr m' ↦ tail (mem-order_rows xs m')
]

mem_of_place : (r : Row) (xs : List Row) {x : Row} → (x ≡ r) ⊎ Memᴰ x xs → Memᴰ x (place r xs)
unfolding place
mem_of_place r [] (inl q) = head q
mem_of_place r [] (inr m) = elim m [ ]
mem_of_place r (y ∷ ys) (inl q) = elim (Bool-cases (row_lt y r)) [
  | inl e ↦ rw e (tail (mem_of_place r ys (inl q)))
  | inr e ↦ rw e (head q)
]
mem_of_place r (y ∷ ys) (inr (head q)) = elim (Bool-cases (row_lt y r)) [
  | inl e ↦ rw e (head q)
  | inr e ↦ rw e (tail (head q))
]
mem_of_place r (y ∷ ys) (inr (tail m)) = elim (Bool-cases (row_lt y r)) [
  | inl e ↦ rw e (tail (mem_of_place r ys (inr m)))
  | inr e ↦ rw e (tail (tail m))
]

pub mem_of_order_rows : (xs : List Row) {x : Row} → Memᴰ x xs → Memᴰ x (order_rows xs)
unfolding order_rows
mem_of_order_rows [] m = m
mem_of_order_rows (r ∷ xs) (head e) = mem_of_place r (order_rows xs) (inl e)
mem_of_order_rows (r ∷ xs) (tail m) = mem_of_place r (order_rows xs) (inr (mem_of_order_rows xs m))

-- Ordered by time: no row is after one that stands later in the list.
abbrev pub Ordered : List Row → Type 0
Ordered [] = Unit
Ordered (r ∷ rs) = All (λ x. before (stamp_of x) (stamp_of r) ≡ false) rs × Ordered rs

place-Ordered : (r : Row) (xs : List Row) → Ordered xs → Ordered (place r xs)
unfolding place
place-Ordered r [] h = (tt, tt)
place-Ordered r (x ∷ xs) h = elim (Bool-cases (row_lt x r)) [
  | inl e ↦
      let x_first = before_asymm (stamp_of x) (stamp_of r) (rw row_lt-before at e) in
      rw e (
        All-mem _ (place r xs) (λ y m. elim (mem-place r xs m) [
          | inl q ↦ rw q x_first
          | inr m' ↦ mem-All (λ z. before (stamp_of z) (stamp_of x) ≡ false) xs h.0 m'
        ]),
        place-Ordered r xs h.1,
      )
  | inr e ↦
      let r_first = rw row_lt-before at e in
      rw e (
        (
          r_first,
          All-mem _ xs (λ y m.
              not-before_trans (stamp_of y) (stamp_of x) (stamp_of r)
                (mem-All (λ z. before (stamp_of z) (stamp_of x) ≡ false) xs h.0 m) r_first),
        ),
        h,
      )
]

pub order_rows-Ordered : (xs : List Row) → Ordered (order_rows xs)
unfolding order_rows
order_rows-Ordered [] = tt
order_rows-Ordered (r ∷ xs) = place-Ordered r (order_rows xs) (order_rows-Ordered xs)

-- The rows selected by a query are the active rows of the table that the cursor lets through, and
-- every such row is among them.
pub mem-selected :
    (since : Hlc) (rows : List Row) {r : Row}
    → Memᴰ r (selected since rows)
    → Memᴰ r rows × (is_active r ≡ true) × (is_after since r ≡ true)
unfolding selected
mem-selected since rows {r} m =
    let (m', h) = mem-select (λ x. is_active x && is_after since x) rows (mem-order_rows _ m) in
    (m', ground arith, ground arith)

pub mem_of_selected :
    (since : Hlc) (rows : List Row) {r : Row}
    → Memᴰ r rows
    → is_active r ≡ true
    → is_after since r ≡ true
    → Memᴰ r (selected since rows)
unfolding selected
mem_of_selected since rows m h h' =
    mem_of_order_rows _ (mem_of_select (λ x. is_active x && is_after since x) rows m (rw (h, h')))

ok_inj : {A : Type 0} {a b : A} → ok a ≡ ok b → a ≡ b
ok_inj h = cc

cases_of_nil : {A : Type 0} {a : A} → Memᴰ a [] → ⊥
cases_of_nil m = elim m [ ]

module _ {V : Type 0} (json : Json V) where
  -- The operation that a row is read as, with the value `v`.
  abbrev pub op_of : Row → V → CrdtOp V
  op_of r v = record {
    op_id = r.op_id;
    doc_id = r.doc_id;
    field = r.field;
    value = v;
    timestamp = stamp_of r;
    device_id = r.device_id;
  }

  -- `op` is the operation that the row holds.
  abbrev pub Reads : Row → CrdtOp V → Type 0
  Reads r op = (v : V) × (json.unmarshal r.value ≡ some v) × (op ≡ op_of r v)

  pub Reads-parts :
      (r : Row) (op : CrdtOp V)
      → Reads r op
      → (op.doc_id ≡ r.doc_id) × (op.field ≡ r.field) × (op.timestamp ≡ stamp_of r)
  Reads-parts r op (v, read, e) = (
    ap (λ (x : CrdtOp V). x.doc_id) e,
    ap (λ (x : CrdtOp V). x.field) e,
    ap (λ (x : CrdtOp V). x.timestamp) e,
  )

  scan_row-cases :
      (r : Row) (o : Option V) (res : Result (List (CrdtOp V))) (ops : List (CrdtOp V))
      → scan_row r o res ≡ ok ops
      → (v : V) × (rest : List (CrdtOp V)) × (o ≡ some v)
        × (res ≡ ok rest)
        × (ops ≡ op_of r v ∷ rest)
  unfolding scan_row
  scan_row-cases r none res ops h = cc
  scan_row-cases r (some v) (err e) ops h = cc
  scan_row-cases r (some v) (ok rest) ops h = (v, rest, refl, refl, cc)

  -- A scan that succeeds reads each row as one operation, and no operation comes from elsewhere.
  pub scan_rows-mem :
      (rs : List Row) (ops : List (CrdtOp V)) {op : CrdtOp V}
      → scan_rows json rs ≡ ok ops
      → Memᴰ op ops
      → (r : Row) × Memᴰ r rs × Reads r op
  unfolding scan_rows
  scan_rows-mem [] ops h m = elim (cases_of_nil (rw (sym (ok_inj h)) at m)) [ ]
  scan_rows-mem (r ∷ rs) ops h m =
      let (v, rest, read, scanned, e) =
        scan_row-cases r (json.unmarshal r.value) (scan_rows json rs) ops h in
      elim (cases_cons (rw e at m)) [
        | inl q ↦ (r, head refl, (v, read, q))
        | inr m' ↦ let (r', mr, reads) = scan_rows-mem rs rest scanned m' in (r', tail mr, reads)
      ]

  pub mem-scan_rows :
      (rs : List Row) (ops : List (CrdtOp V)) {r : Row}
      → scan_rows json rs ≡ ok ops
      → Memᴰ r rs
      → (op : CrdtOp V) × Memᴰ op ops × Reads r op
  unfolding scan_rows
  mem-scan_rows [] ops h m = elim m [ ]
  mem-scan_rows (x ∷ rs) ops h (head q) =
      let (v, rest, read, scanned, e) =
        scan_row-cases x (json.unmarshal x.value) (scan_rows json rs) ops h in
      (op_of x v, rw e (head refl), (v, rw q read, rw q))
  mem-scan_rows (x ∷ rs) ops h (tail m) =
      let (v, rest, read, scanned, e) =
        scan_row-cases x (json.unmarshal x.value) (scan_rows json rs) ops h in
      let (op, mo, reads) = mem-scan_rows rs rest scanned m in (op, rw e (tail mo), reads)
