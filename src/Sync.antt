-- ===== src/Sync.antt =====
-- core/interfaces.go, core/crdt/compaction.go, core/crdt/schema.go and core/sync/engine.go: one sync
-- of a client over a storage backend and a notifier.
pub mod Replies
pub mod Readers
pub mod Crsqlite
pub mod Serving
pub mod Rounds
pub mod Answers
pub mod Delivery
pub mod Stubs
use mobile_db.Prelude.{
  ℕ, if◌then◌else◌, ◌==◌, nat_eq, pair_eq, ℤ, pos, ltb_ℤ, ℤ_eq, Str, str_eq_inst, Bool, true, false,
  Option, none, some, List, [], ◌∷◌,
}
use mobile_db.Prelude.Eff.{Eff, return, ignore, try_or, ◌>>=◌, ◌>>◌}
use mobile_db.Core.{Hlc, CrdtOp, SyncMessage, SyncResponse}
use mobile_db.Crdt.Hlc.{Clock, receive}

-- `StorageBackend`, over the backend's own state `S`; a snapshot is a `Snap`.
pub record StorageBackend (V Snap S : Type 0) : Type 0 where
  pub merge_ops : Str → Str → Str → List (CrdtOp V) → Eff S (Unit {0})
  pub get_delta : Str → Str → Str → Hlc → Eff S (List (CrdtOp V) × Hlc)
  pub get_snapshot : Str → Str → Str → Eff S (Snap × Hlc)
  pub schema_version : Str → Str → Eff S ℤ
  pub op_count : Str → Str → Str → Eff S ℕ
  pub compact : Str → Str → Str → Eff S (Unit {0})

-- `Notifier`, over the state `N` of the transport.
pub record Notifier (N : Type 0) : Type 0 where
  pub notify : Str → Str → Eff N (Unit {0})

-- The state that the engine's calls change.
pub record Site (S N : Type 0) : Type 0 where
  pub store : S
  pub listeners : N
  pub clock : Clock

module _ {S N A : Type 0} where
  abbrev pub on_store : Eff S A → Eff (Site S N) A
  on_store m w = ((m w.store).0, record w { store = (m w.store).1 })

  abbrev pub on_listeners : Eff N A → Eff (Site S N) A
  on_listeners m w = ((m w.listeners).0, record w { listeners = (m w.listeners).1 })

module _ {V Snap S : Type 0} (store : StorageBackend V Snap S) where
  unfoldable pub maybe_compact : ℤ → Str → Str → Str → Eff S (Unit {0})
  maybe_compact threshold app_id user_id dataset_id = do
    count ← store.op_count app_id user_id dataset_id
    if ltb_ℤ threshold (pos count) then store.compact app_id user_id dataset_id else return tt

  unfoldable pub needs_snapshot : Str → Str → ℤ → Eff S Bool
  needs_snapshot app_id dataset_id client_version = do
    server_version ← store.schema_version app_id dataset_id
    return (ltb_ℤ client_version server_version)

-- The reply's clock: the delta's, or the server's when the delta has none.
unfoldable pub reply_clock : Hlc → Hlc → Hlc
reply_clock new_clock server_clock =
    if new_clock.wall_time == pos 0 then server_clock else new_clock

module _ {V Snap S N : Type 0} (store : StorageBackend V Snap S) (notifier : Notifier N) where
  -- `if needsSnap { … }`
  unfoldable pub read_snapshot : SyncMessage V → Bool → Eff (Site S N) (Option Snap)
  read_snapshot msg false = return none
  read_snapshot msg true = do
    snap ← on_store (store.get_snapshot msg.app_id msg.user_id msg.dataset_id)
    return (some (snap.0))

  -- `if len(msg.Ops) > 0 { … }`
  unfoldable pub take_ops : ℤ → SyncMessage V → List (CrdtOp V) → Eff (Site S N) (Unit {0})
  take_ops threshold msg [] = return tt
  take_ops threshold msg (op ∷ ops) = do
    on_store (store.merge_ops msg.app_id msg.user_id msg.dataset_id (op ∷ ops))
    ignore (on_listeners (notifier.notify msg.app_id msg.user_id))
    ignore (on_store (maybe_compact store threshold msg.app_id msg.user_id msg.dataset_id))

  -- `Sync` after its first statement.
  unfoldable pub answer : ℤ → SyncMessage V → Hlc → Eff (Site S N) (SyncResponse V Snap)
  answer threshold msg server_clock = do
    needs ← on_store (needs_snapshot store msg.app_id msg.dataset_id msg.client_schema_version)
    snapshot ← read_snapshot msg needs
    take_ops threshold msg msg.ops
    delta ← on_store (store.get_delta msg.app_id msg.user_id msg.dataset_id msg.clock)
    schema_version ← try_or (pos 0) (on_store (store.schema_version msg.app_id msg.dataset_id))
    return (record {
      new_clock = reply_clock delta.1 server_clock;
      ops = delta.0;
      snapshot = snapshot;
      schema_version = schema_version;
    })

  unfoldable pub sync : ℤ → ℤ → SyncMessage V → Eff (Site S N) (SyncResponse V Snap)
  sync threshold now msg w =
      let r = receive w.clock now msg.clock in answer threshold msg r.1 (record w { clock = r.0 })
