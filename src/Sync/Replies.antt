-- ===== src/Sync/Replies.antt =====
-- core/sync/engine.go, `Sync`: the clock after a sync, and what the reply holds.
use mobile_db.Prelude.{
  ◌≤◌, nat_eq, pair_eq, ℤ, ◌<ℤ◌, ltb_ℤ, ℤ_eq, max_int64, str_eq_inst, ◌≡◌, refl, Bool, true, false,
  some, List, [], ◌∷◌,
}
use mobile_db.Prelude.Eff.{return}
use mobile_db.Prelude.Eff.Keeps.{Keeps, Keeps-bind, state_of_return}
use mobile_db.Core.{Hlc, CrdtOp, SyncMessage}
use mobile_db.Crdt.Hlc.{receive, before, max_uint32}
use mobile_db.Crdt.Hlc.Advance.{receive-before, receive_last}
use mobile_db.Sync.{
  StorageBackend, Notifier, Site, on_store, needs_snapshot, read_snapshot, take_ops, answer, sync,
}

module _ {V Snap S N : Type 0} (store : StorageBackend V Snap S) (notifier : Notifier N) where
  -- A call on the store or on the listeners leaves every other part of the state as it is.
  module _ {X : Type 0} (view : Site S N → X) where
    read_snapshot-Keeps :
        (msg : SyncMessage V) (needs : Bool)
        → Keeps view (on_store (store.get_snapshot msg.app_id msg.user_id msg.dataset_id))
        → Keeps view (read_snapshot store notifier msg needs)
    unfolding read_snapshot
    read_snapshot-Keeps msg false k w = refl
    read_snapshot-Keeps msg true k w =
        Keeps-bind view (on_store (store.get_snapshot msg.app_id msg.user_id msg.dataset_id))
          (λ snap. return (some (snap.0))) k (λ a w'. refl) w

    pub answer-Keeps :
        (threshold : ℤ) (msg : SyncMessage V) (server_clock : Hlc)
        → Keeps view (on_store (store.schema_version msg.app_id msg.dataset_id))
        → Keeps view (on_store (store.get_snapshot msg.app_id msg.user_id msg.dataset_id))
        → Keeps view (take_ops store notifier threshold msg msg.ops)
        → Keeps view (on_store (store.get_delta msg.app_id msg.user_id msg.dataset_id msg.clock))
        → Keeps view (answer store notifier threshold msg server_clock)
    unfolding answer needs_snapshot
    answer-Keeps threshold msg server_clock version snapshot ops delta w =
        let first : Keeps view
            (on_store (needs_snapshot store msg.app_id msg.dataset_id msg.client_schema_version)) =
          λ w'.
            rw
              (state_of_return (store.schema_version msg.app_id msg.dataset_id)
                (ltb_ℤ msg.client_schema_version) w'.store)
              (version w') in
        Keeps-bind view
          (on_store (needs_snapshot store msg.app_id msg.dataset_id msg.client_schema_version)) _
          first
          (λ needs.
            Keeps-bind view (read_snapshot store notifier msg needs) _
              (read_snapshot-Keeps msg needs snapshot)
              (λ snap. Keeps-bind view (take_ops store notifier threshold msg msg.ops) _ ops (λ u.
                Keeps-bind view
                  (on_store (store.get_delta msg.app_id msg.user_id msg.dataset_id msg.clock)) _
                  delta (λ d w'. version w'))))
          w

  take_ops-clock :
      (threshold : ℤ) (msg : SyncMessage V) (ops : List (CrdtOp V))
      → Keeps (λ w. w.clock) (take_ops store notifier threshold msg ops)
  unfolding take_ops
  take_ops-clock threshold msg [] w = refl
  take_ops-clock threshold msg (op ∷ ops) w =
      Keeps-bind (λ w. w.clock)
        (on_store (store.merge_ops msg.app_id msg.user_id msg.dataset_id (op ∷ ops))) _ (λ w'. refl)
        (λ u w'. refl) w

  -- Whatever the outcome of a sync, errors included, afterwards the server's clock is strictly
  -- after what it was and after the timestamp of the message, as long as neither wall time nor the
  -- reading is the largest int64.
  pub sync-clock :
      (threshold now : ℤ) (msg : SyncMessage V) (w : Site S N)
      → w.clock.last.logical ≤ max_uint32
      → msg.clock.logical ≤ max_uint32
      → now <ℤ max_int64
      → w.clock.last.wall_time <ℤ max_int64
      → msg.clock.wall_time <ℤ max_int64
      → (before w.clock.last (sync store notifier threshold now msg w).1.clock.last ≡ true)
        × (before msg.clock (sync store notifier threshold now msg w).1.clock.last ≡ true)
  unfolding sync
  sync-clock threshold now msg w small small' h h' h'' =
      let r = receive w.clock now msg.clock in
      let kept =
        answer-Keeps (λ w'. w'.clock) threshold msg r.1 (λ w'. refl) (λ w'. refl)
          (take_ops-clock threshold msg msg.ops) (λ w'. refl) (record w { clock = r.0 }) in
      rw (kept, receive_last w.clock now msg.clock)
        (receive-before w.clock now msg.clock small small' h h' h'')
