-- ===== src/Tests/Clocks.antt =====
-- Examples for the clock and the merge.
use mobile_db.Prelude.{
  nat_eq, pair_eq, pos, ℤ_eq, max_int64, Str, codes, str_eq_inst, All, ◌≡◌, sym, ap, ◌∙◌, ◌⊎◌, none,
  some, [], ◌∷◌, Memᴰ, arith,
}
use mobile_db.Core.{CrdtOp}
use mobile_db.Crdt.Hlc.{Clock, max_uint32}
use mobile_db.Crdt.Hlc.Runs.{tick_at, receive_at, run, Increasing, run-Increasing}
use mobile_db.Crdt.Merge.{merge, value_at}
use mobile_db.Crdt.Merge.Winners.{IsWinner, merge_lem, merge_same_set}
use mobile_db.Storage.Backend.{merge_ops_local}
use mobile_db.Storage.Backend.Kept.{merge_ops_local-merge}
use mobile_db.Tests.{early, late, first_op, second_op, in_order}
use mathlib.Core.List.Memᴰ.{head, tail}

abbrev clock : Clock
clock = record { last = early; device_id = codes "s" }

abbrev worn_out : Clock
worn_out = record clock {
  last = record { wall_time = max_int64; logical = max_uint32; device_id = codes "s" };
}

run-Increasing_example :
    Increasing (early ∷ run clock (tick_at (pos 3) ∷ receive_at (pos 4) late ∷ []))
run-Increasing_example =
    run-Increasing clock (tick_at (pos 3) ∷ receive_at (pos 4) late ∷ []) 9 9 (omega arith)
      (omega arith) (record { small = omega arith; reached = omega arith })
      (omega arith, ((omega arith, omega arith, omega arith), tt))

merge_lem_example :
    ((w : CrdtOp Str) × IsWinner (codes "d") (codes "f") (first_op ∷ second_op ∷ []) w
      × (value_at (merge in_order (first_op ∷ second_op ∷ [])) (codes "d") (codes "f")
          ≡ some w.value))
    ⊎ ((value_at (merge in_order (first_op ∷ second_op ∷ [])) (codes "d") (codes "f") ≡ none)
        × All
            (λ op. (op.doc_id ≡ codes "d") → ¬ (op.field ≡ codes "f"))
            (first_op ∷ second_op ∷ []))
merge_lem_example = merge_lem in_order (first_op ∷ second_op ∷ []) (codes "d") (codes "f")

only : (op : CrdtOp Str) → Memᴰ op (first_op ∷ first_op ∷ []) → op ≡ first_op
only op (head e) = e
only op (tail (head e)) = e
only op (tail (tail m)) = elim m [ ]

merge_same_set_example :
    value_at (merge in_order (first_op ∷ first_op ∷ [])) (codes "d") (codes "f")
    ≡ value_at (merge in_order (first_op ∷ [])) (codes "d") (codes "f")
merge_same_set_example =
    merge_same_set in_order in_order (first_op ∷ first_op ∷ []) (first_op ∷ []) (codes "d")
      (codes "f") (λ a b ma mb d f t. ap (λ o. o.value) (only a ma ∙ sym (only b mb)))
      (λ op m. head (only op m)) (λ op m. tail m)

merge_ops_local-merge_example :
    merge_ops_local in_order (second_op ∷ first_op ∷ [])
    ≡ merge in_order (second_op ∷ first_op ∷ [])
merge_ops_local-merge_example = merge_ops_local-merge in_order (second_op ∷ first_op ∷ [])
