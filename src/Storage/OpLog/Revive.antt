-- ===== src/Storage/OpLog/Revive.antt =====
-- Reactivation of the kept operations after all rows were archived.
use mobile_db.Prelude.{
  if◌then◌else◌, Bool-cases, ◌==◌, nat_eq, pair_eq, ℤ_eq, Str, str_eq_iff, str_eq_inst, All,
  All-mem, mem-All, ◌≡◌, refl, sym, ap, ◌∙◌, inl, inr, Bool, true, false, ◌&&◌, ◌||◌, List, [], ◌∷◌,
  map, Memᴰ, arith,
}
use mathlib.Core.List.Memᴰ.{head, tail}
use mobile_db.Core.{CrdtOp}
use mobile_db.Storage.OpLog.{Json, Row, active, is_active, archive_row, upsert_row, row_of}
use mobile_db.Storage.OpLog.Inserts.{write_all, text_of, has_id}

-- op_id is the primary key.
abbrev pub DistinctIds : List Row → Type 0
DistinctIds [] = Unit
DistinctIds (r ∷ rs) = (has_id r.op_id rs ≡ false) × DistinctIds rs

-- `ON CONFLICT(op_id) DO UPDATE SET status = 'active'`, as seen by each row.
wake : Str → Row → Row
wake i x = if x.op_id == i then record x { status = active } else x

map-wake_absent : (i : Str) (rows : List Row) → has_id i rows ≡ false → map (wake i) rows ≡ rows
unfolding wake has_id
map-wake_absent i [] h = refl
map-wake_absent i (x ∷ rows) h = ground (arith, map-wake_absent i rows)

upsert_row-wake :
    (r : Row) (rows : List Row)
    → DistinctIds rows
    → has_id r.op_id rows ≡ true
    → upsert_row r rows ≡ map (wake r.op_id) rows
unfolding upsert_row has_id wake
upsert_row-wake r [] d h = cc
upsert_row-wake r (x ∷ rows) d h =
    ground
      (arith, upsert_row-wake r rows d.1, map-wake_absent r.op_id rows, str_eq_iff x.op_id r.op_id)

has_id-map-wake : (i j : Str) (rows : List Row) → has_id j (map (wake i) rows) ≡ has_id j rows
unfolding has_id wake
has_id-map-wake i j [] = refl
has_id-map-wake i j (x ∷ rows) = ground (arith, has_id-map-wake i j rows)

map-wake-DistinctIds :
    (i : Str) (rows : List Row) → DistinctIds rows → DistinctIds (map (wake i) rows)
unfolding wake
map-wake-DistinctIds i [] d = tt
map-wake-DistinctIds i (x ∷ rows) d =
    ground (arith, has_id-map-wake i x.op_id rows, map-wake-DistinctIds i rows d.1)

pub has_id-archived : (j : Str) (rows : List Row) → has_id j (map archive_row rows) ≡ has_id j rows
unfolding has_id archive_row
has_id-archived j [] = refl
has_id-archived j (x ∷ rows) = ground (arith, has_id-archived j rows)

pub archived-DistinctIds : (rows : List Row) → DistinctIds rows → DistinctIds (map archive_row rows)
unfolding archive_row
archived-DistinctIds [] d = tt
archived-DistinctIds (x ∷ rows) d =
    ground (arith, has_id-archived x.op_id rows, archived-DistinctIds rows d.1)

map_fixed : (g : Row → Row) → ((x : Row) → g x ≡ x) → (rows : List Row) → map g rows ≡ rows
map_fixed g h [] = refl
map_fixed g h (x ∷ rows) = rw (h x, map_fixed g h rows)

module _ {V : Type 0} where
  -- Some operation of the list has the op_id.
  unfoldable pub op_has : Str → List (CrdtOp V) → Bool
  op_has i [] = false
  op_has i (op ∷ ops) = i == op.op_id || op_has i ops

  -- What reactivation makes of a row.
  pub revive : List (CrdtOp V) → Row → Row
  revive ops x = if op_has x.op_id ops then record x { status = active } else x

  revive-wake :
      (op : CrdtOp V) (ops : List (CrdtOp V)) (x : Row)
      → revive ops (wake op.op_id x) ≡ revive (op ∷ ops) x
  unfolding revive wake op_has
  revive-wake op ops x = ground arith

  map-revive-wake :
      (op : CrdtOp V) (ops : List (CrdtOp V)) (rows : List Row)
      → map (revive ops) (map (wake op.op_id) rows) ≡ map (revive (op ∷ ops)) rows
  map-revive-wake op ops [] = refl
  map-revive-wake op ops (x ∷ rows) = rw (revive-wake op ops x, map-revive-wake op ops rows)

  module _ (json : Json V) where
    pub write_all-revive :
        (ops : List (CrdtOp V)) (rows : List Row)
        → DistinctIds rows
        → All (λ op. has_id op.op_id rows ≡ true) ops
        → write_all json upsert_row ops rows ≡ map (revive ops) rows
    unfolding write_all row_of revive op_has
    write_all-revive [] rows d h = sym (map_fixed (revive []) (λ x. refl) rows)
    write_all-revive (op ∷ ops) rows d h =
        rw (upsert_row-wake (row_of op (text_of json op)) rows d h.0) (
          write_all-revive ops (map (wake op.op_id) rows) (map-wake-DistinctIds op.op_id rows d) (
            All-mem _ ops (λ x m.
              rw has_id-map-wake
                (mem-All (λ (y : CrdtOp V). has_id y.op_id rows ≡ true) ops h.1 m)))
          ∙ map-revive-wake op ops rows)

-- An active row after archiving and reactivation was named by an operation, and is otherwise as it
-- was.
pub woken :
    {V : Type 0} (ops : List (CrdtOp V)) (x : Row)
    → is_active (revive ops (archive_row x)) ≡ true
    → (op_has x.op_id ops ≡ true) × (revive ops (archive_row x) ≡ record x { status = active })
unfolding revive archive_row is_active
woken ops x h = ground arith

pub woken_of_has :
    {V : Type 0} (ops : List (CrdtOp V)) (x : Row)
    → op_has x.op_id ops ≡ true
    → revive ops (archive_row x) ≡ record x { status = active }
unfolding revive archive_row
woken_of_has ops x h = ground arith

pub mem_of_op_has :
    {V : Type 0} (i : Str) (ops : List (CrdtOp V))
    → op_has i ops ≡ true
    → (w : CrdtOp V) × Memᴰ w ops × (i ≡ w.op_id)
unfolding op_has
mem_of_op_has i [] h = cc
mem_of_op_has i (op ∷ ops) h = elim (Bool-cases (i == op.op_id)) [
  | inl e ↦ (op, head refl, (str_eq_iff i op.op_id).0 e)
  | inr e ↦ let (w, m, q) = mem_of_op_has i ops (ground arith) in (w, tail m, q)
]

pub op_has_of_mem :
    {V : Type 0} (ops : List (CrdtOp V)) {w : CrdtOp V} → Memᴰ w ops → op_has w.op_id ops ≡ true
unfolding op_has
op_has_of_mem [] m = elim m [ ]
op_has_of_mem (op ∷ ops) {w} (head e) =
    ground (arith, str_eq_iff w.op_id op.op_id, ap (λ (o : CrdtOp _). o.op_id) e)
op_has_of_mem (op ∷ ops) (tail m) = ground (arith, op_has_of_mem ops m)

pub has_id_of_mem : (rows : List Row) {r : Row} → Memᴰ r rows → has_id r.op_id rows ≡ true
unfolding has_id
has_id_of_mem [] m = elim m [ ]
has_id_of_mem (x ∷ rows) {r} (head e) =
    ground (arith, str_eq_iff x.op_id r.op_id, ap (λ (o : Row). o.op_id) e)
has_id_of_mem (x ∷ rows) (tail m) = ground (arith, has_id_of_mem rows m)

-- With distinct op_ids a row is determined by its op_id.
pub eq_of_op_id :
    (rows : List Row) {r r' : Row}
    → DistinctIds rows
    → Memᴰ r rows
    → Memᴰ r' rows
    → r.op_id ≡ r'.op_id
    → r ≡ r'
unfolding has_id
eq_of_op_id [] d m m' e = elim m [ ]
eq_of_op_id (x ∷ rows) d (head q) (head q') e = q ∙ sym q'
eq_of_op_id (x ∷ rows) {r} {r'} d (head q) (tail m') e =
    ground (arith, d.0, has_id_of_mem rows m', e, ap (λ (o : Row). o.op_id) q)
eq_of_op_id (x ∷ rows) {r} {r'} d (tail m) (head q') e =
    ground (arith, d.0, has_id_of_mem rows m, e, ap (λ (o : Row). o.op_id) q')
eq_of_op_id (x ∷ rows) d (tail m) (tail m') e = eq_of_op_id rows d.1 m m' e

-- A row that no operation names stays archived.
pub asleep :
    {V : Type 0} (ops : List (CrdtOp V)) (i : Str) (rows : List Row)
    → op_has i ops ≡ false
    → All (λ x. (x.op_id == i && is_active x) ≡ false) (map (revive ops) (map archive_row rows))
unfolding revive archive_row is_active
asleep ops i [] h = tt
asleep ops i (x ∷ rows) h = (ground (arith, h, str_eq_iff x.op_id i), asleep ops i rows h)

has_id-revived :
    {V : Type 0} (i : Str) (ops : List (CrdtOp V)) (rows : List Row)
    → has_id i (map (revive ops) rows) ≡ has_id i rows
unfolding has_id revive
has_id-revived i ops [] = refl
has_id-revived i ops (x ∷ rows) = ground (arith, has_id-revived i ops rows)

pub revived-DistinctIds :
    {V : Type 0} (ops : List (CrdtOp V)) (rows : List Row)
    → DistinctIds rows
    → DistinctIds (map (revive ops) rows)
unfolding revive
revived-DistinctIds ops [] d = tt
revived-DistinctIds ops (x ∷ rows) d =
    ground (arith, has_id-revived x.op_id ops rows, revived-DistinctIds ops rows d.1)

-- Archiving and reactivation leave a row's value alone.
pub value-revived :
    {V : Type 0} (ops : List (CrdtOp V)) (x : Row) → (revive ops (archive_row x)).value ≡ x.value
unfolding revive archive_row
value-revived ops x = ground arith
