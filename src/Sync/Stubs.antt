-- ===== src/Sync/Stubs.antt =====
-- The stubs of core/interfaces.go, which the tests of the program put in place of a backend and a
-- transport, and what a sync over them answers.
use mobile_db.Prelude.{
  pos, ℤ, Str, ◌≡◌, refl, Bool-cases, inl, inr, some, none, if◌then◌else◌, List, [], ◌∷◌, ltb_ℤ,
}
use mobile_db.Prelude.Dict.{Dict}
use mobile_db.Prelude.Exec.{ok}
use mobile_db.Prelude.Eff.{return}
use mobile_db.Core.{zero_hlc, CrdtOp, SyncMessage}
use mobile_db.Crdt.Hlc.{receive}
use mobile_db.Sync.{
  StorageBackend, Notifier, Site, sync, answer, take_ops, maybe_compact, needs_snapshot,
  read_snapshot, reply_clock,
}

module _ {V S : Type 0} where
  -- `NopStorage`
  abbrev pub nop_storage : StorageBackend V (Dict Str V) S
  nop_storage = record {
    merge_ops = λ app user dataset ops. return tt;
    get_delta = λ app user dataset since. return ([], zero_hlc);
    get_snapshot = λ app user dataset. return ([], zero_hlc);
    schema_version = λ app dataset. return (pos 1);
    op_count = λ app user dataset. return 0;
    compact = λ app user dataset. return tt;
  }

-- `NopTransport`
abbrev pub nop_notifier : {N : Type 0} → Notifier N
nop_notifier = record { notify = λ app user. return tt }

module _ {V S N : Type 0} where
  take_ops_stubs :
      (threshold : ℤ) (msg : SyncMessage V) (ops : List (CrdtOp V)) (w : Site S N)
      → take_ops (nop_storage {V = V} {S = S}) nop_notifier threshold msg ops w ≡ (ok tt, w)
  unfolding take_ops maybe_compact
  take_ops_stubs threshold msg [] w = refl
  take_ops_stubs threshold msg (op ∷ ops) w = elim (Bool-cases (ltb_ℤ threshold (pos 0))) [
    | inl e ↦ rw e refl
    | inr e ↦ rw e refl
  ]

  -- Over the stubs a sync succeeds with no operation and the clock of the server, and the snapshot is
  -- the empty one for a client of a version below 1.
  sync_stubs :
      (threshold now : ℤ) (msg : SyncMessage V) (w : Site S N)
      → (sync (nop_storage {V = V} {S = S}) nop_notifier threshold now msg w).0
        ≡ ok (record {
          new_clock = (receive w.clock now msg.clock).1;
          ops = [];
          snapshot = if ltb_ℤ msg.client_schema_version (pos 1) then some [] else none;
          schema_version = pos 1;
        })
  unfolding sync answer needs_snapshot read_snapshot reply_clock
  sync_stubs threshold now msg w =
      let (clock, r) = receive w.clock now msg.clock in
      let w' : Site S N = record w { clock = clock } in
      elim (Bool-cases (ltb_ℤ msg.client_schema_version (pos 1))) [
        | inl e ↦ rw (e, take_ops_stubs threshold msg msg.ops w') refl
        | inr e ↦ rw (e, take_ops_stubs threshold msg msg.ops w') refl
      ]
