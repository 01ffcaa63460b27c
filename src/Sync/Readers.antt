-- ===== src/Sync/Readers.antt =====
-- core/sync/engine.go, `Sync`: what a sync changes, and what its reply says of the schema.
use mobile_db.Prelude.{
  if◌then◌else◌, nat_eq, pair_eq, ℤ, ltb_ℤ, ℤ_eq, str_eq_inst, ◌≡◌, refl, sym, ap, ◌≢◌, Bool, true,
  false, Option, none, some, List, [], ◌∷◌,
}
use mobile_db.Prelude.Exec.{Failure, ok, err}
use mobile_db.Prelude.Eff.{Eff, return}
use mobile_db.Prelude.Eff.Keeps.{Keeps, bind-ok, value_of_ok}
use mobile_db.Core.{Hlc, CrdtOp, SyncMessage, SyncResponse}
use mobile_db.Crdt.Hlc.{receive}
use mobile_db.Sync.{
  StorageBackend, Notifier, Site, on_store, needs_snapshot, read_snapshot, take_ops, answer, sync,
}
use mobile_db.Sync.Replies.{answer-Keeps}

module _ {V Snap S N : Type 0} (store : StorageBackend V Snap S) (notifier : Notifier N) where
  take_none-Keeps :
      {X : Type 0} (view : Site S N → X) (threshold : ℤ) (msg : SyncMessage V)
      (ops : List (CrdtOp V))
      → ops ≡ []
      → Keeps view (take_ops store notifier threshold msg ops)
  unfolding take_ops
  take_none-Keeps view threshold msg ops e w = rw (e, take_ops)

  -- What the three reads of the backend leave alone, a sync without operations leaves alone, whatever
  -- its outcome, and it notifies nobody: the listeners are as they were.
  pub sync_reads :
      {X : Type 0} (view : S → X) (threshold now : ℤ) (msg : SyncMessage V) (w : Site S N)
      → Keeps view (store.schema_version msg.app_id msg.dataset_id)
      → Keeps view (store.get_snapshot msg.app_id msg.user_id msg.dataset_id)
      → Keeps view (store.get_delta msg.app_id msg.user_id msg.dataset_id msg.clock)
      → msg.ops ≡ []
      → (view (sync store notifier threshold now msg w).1.store ≡ view w.store)
        × ((sync store notifier threshold now msg w).1.listeners ≡ w.listeners)
  unfolding sync
  sync_reads view threshold now msg w version snapshot delta e =
      let r = receive w.clock now msg.clock in
      (
        answer-Keeps store notifier (λ w'. view w'.store) threshold msg r.1 (λ w'. version w'.store)
            (λ w'. snapshot w'.store)
            (take_none-Keeps (λ w'. view w'.store) threshold msg msg.ops e) (λ w'. delta w'.store)
            (record w { clock = r.0 }),
        answer-Keeps store notifier (λ w'. w'.listeners) threshold msg r.1 (λ w'. refl) (λ w'. refl)
            (take_none-Keeps (λ w'. w'.listeners) threshold msg msg.ops e) (λ w'. refl)
            (record w { clock = r.0 }),
      )

  -- The steps of a sync that returned a reply, each with the state it started in.
  pub record Answered (threshold : ℤ) (msg : SyncMessage V) (reply : SyncResponse V Snap)
      (server_clock : Hlc) (w : Site S N) : Type 0 where
    pub needs : Bool
    pub snapshot : Option Snap
    pub delta : List (CrdtOp V) × Hlc
    pub at_snapshot : Site S N
    pub at_merge : Site S N
    pub at_delta : S
    pub asked :
        (needs_snapshot store msg.app_id msg.dataset_id msg.client_schema_version w.store).0
        ≡ ok needs
    pub snapshot_read : (read_snapshot store notifier msg needs at_snapshot).0 ≡ ok snapshot
    pub merged : (take_ops store notifier threshold msg msg.ops at_merge).0 ≡ ok tt
    pub delta_read :
        (store.get_delta msg.app_id msg.user_id msg.dataset_id msg.clock at_delta).0 ≡ ok delta
    pub snapshot_sent : reply.snapshot ≡ snapshot
    pub ops_sent : reply.ops ≡ delta.0

  answer-Answered :
      (threshold : ℤ) (msg : SyncMessage V) (server_clock : Hlc) (reply : SyncResponse V Snap)
      (w : Site S N)
      → (answer store notifier threshold msg server_clock w).0 ≡ ok reply
      → Answered threshold msg reply server_clock w
  unfolding answer
  answer-Answered threshold msg server_clock reply w h =
      let m1 : Eff (Site S N) Bool =
        on_store (needs_snapshot store msg.app_id msg.dataset_id msg.client_schema_version) in
      let (needs, e1, h1) = bind-ok m1 _ w reply h in
      let (snap, e2, h2) = bind-ok (read_snapshot store notifier msg needs) _ _ reply h1 in
      let (u, e3, h3) = bind-ok (take_ops store notifier threshold msg msg.ops) _ _ reply h2 in
      let m4 : Eff (Site S N) (List (CrdtOp V) × Hlc) =
        on_store (store.get_delta msg.app_id msg.user_id msg.dataset_id msg.clock) in
      let (delta, e4, h4) = bind-ok m4 _ _ reply h3 in
      record {
        needs = needs;
        snapshot = snap;
        delta = delta;
        at_snapshot = _;
        at_merge = _;
        at_delta = _;
        asked = e1;
        snapshot_read = e2;
        merged = e3;
        delta_read = e4;
        snapshot_sent = ap (λ x. x.snapshot) (sym (value_of_ok h4));
        ops_sent = ap (λ x. x.ops) (sym (value_of_ok h4));
      }

  asks :
      (msg : SyncMessage V) (s : S) (v : ℤ) (needs : Bool)
      → (store.schema_version msg.app_id msg.dataset_id s).0 ≡ ok v
      → (needs_snapshot store msg.app_id msg.dataset_id msg.client_schema_version s).0 ≡ ok needs
      → needs ≡ ltb_ℤ msg.client_schema_version v
  unfolding needs_snapshot
  asks msg s v needs h h' = value_of_ok (sym (rw h at h'))

  reads_snapshot :
      (msg : SyncMessage V) (needs : Bool) (w : Site S N) (snap : Option Snap)
      → (read_snapshot store notifier msg needs w).0 ≡ ok snap
      → if needs then ((x : Snap) × (snap ≡ some x)) else (snap ≡ none)
  unfolding read_snapshot
  reads_snapshot msg false w snap h = sym (value_of_ok h)
  reads_snapshot msg true w snap h =
      let (x, e, h') =
        bind-ok (on_store (store.get_snapshot msg.app_id msg.user_id msg.dataset_id))
          (λ x. return (some (x.0))) w snap h in
      (x.0, sym (value_of_ok h'))

  -- A reply to a client whose dataset is at version `v` on the server holds a snapshot if the
  -- client's schema version is below `v`, and no snapshot otherwise.
  sync_snapshot :
      (threshold now : ℤ) (msg : SyncMessage V) (w : Site S N) (v : ℤ) (reply : SyncResponse V Snap)
      → (store.schema_version msg.app_id msg.dataset_id w.store).0 ≡ ok v
      → (sync store notifier threshold now msg w).0 ≡ ok reply
      → if ltb_ℤ msg.client_schema_version v
        then ((x : Snap) × (reply.snapshot ≡ some x))
        else (reply.snapshot ≡ none)
  unfolding sync
  sync_snapshot threshold now msg w v reply h h' =
      let r = receive w.clock now msg.clock in
      let steps = answer-Answered threshold msg r.1 reply (record w { clock = r.0 }) h' in
      let needs = asks msg w.store v steps.needs h steps.asked in
      let read =
        reads_snapshot msg steps.needs steps.at_snapshot steps.snapshot steps.snapshot_read in
      rw (steps.snapshot_sent) (rw needs at read)

  module _ (threshold : ℤ) (msg : SyncMessage V)
      (refused : (s : S)
        → (e : Failure) × ((store.merge_ops msg.app_id msg.user_id msg.dataset_id msg.ops s).0
            ≡ err e)) where
    refused_ops :
        (ops : List (CrdtOp V)) (w : Site S N)
        → ops ≡ msg.ops
        → ops ≢ []
        → (take_ops store notifier threshold msg ops w).1.listeners ≡ w.listeners
          × ((take_ops store notifier threshold msg ops w).0 ≢ ok tt)
    unfolding take_ops
    refused_ops [] w e h = elim (h refl) [ ]
    refused_ops (op ∷ ops) w e h =
        let (f, e') = refused w.store in let e'' = rw (sym e) at e' in rw e'' (refl, λ q. cc)

    -- A sync whose operations the backend refuses to merge returns no reply and notifies nobody: the
    -- listeners are as they were.
    sync_refused :
        (now : ℤ) (w : Site S N) (reply : SyncResponse V Snap)
        → msg.ops ≢ []
        → ((sync store notifier threshold now msg w).0 ≢ ok reply)
          × ((sync store notifier threshold now msg w).1.listeners ≡ w.listeners)
    unfolding sync
    sync_refused now w reply h =
        let r = receive w.clock now msg.clock in
        (
          λ ok.
              let steps = answer-Answered threshold msg r.1 reply (record w { clock = r.0 }) ok in
              (refused_ops msg.ops steps.at_merge refl h).1 steps.merged,
          answer-Keeps store notifier (λ w'. w'.listeners) threshold msg r.1 (λ w'. refl)
              (λ w'. refl) (λ w'. (refused_ops msg.ops w' refl h).0) (λ w'. refl)
              (record w { clock = r.0 }),
        )
