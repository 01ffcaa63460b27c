-- ===== src/Sync/Answers.antt =====
-- core/sync/engine.go over the SQLite backend: on a connection without driver errors every sync of a
-- readable dataset gets a reply, which holds what the cursor of the message selects.
use mobile_db.Prelude.{
  Str, nat_eq, pair_eq, ℤ, pos, ltb_ℤ, ℤ_eq, str_eq_inst, ◌≡◌, refl, Bool, true, false, Option,
  none, some, List, [], ◌∷◌,
}
use mobile_db.Prelude.Dict.{Dict, get, MapOrder}
use mobile_db.Prelude.Exec.{ok}
use mobile_db.Prelude.Exec.Runs.{moved, Runs-stmt}
use mobile_db.Prelude.Eff.{return, ignore, try_or}
use mobile_db.Core.{Hlc, zero_hlc, CrdtOp, SyncMessage, SyncResponse}
use mobile_db.Storage.OpLog.{Logs, Json, Row, selected, scan_rows}
use mobile_db.Storage.OpLog.Ensure.{ensured}
use mobile_db.Storage.Backend.{max_hlc, get_delta, merge_ops}
use mobile_db.Storage.Backend.Answers.{rows_at-ensured}
use mobile_db.Storage.Backend.Holds.{Sound}
use mobile_db.Storage.Meta.{version_of, get_schema_version}
use mobile_db.Sync.{
  Notifier, on_store, on_listeners, maybe_compact, needs_snapshot, read_snapshot, take_ops,
  reply_clock, answer,
}
use mobile_db.Sync.Crsqlite.{crsqlite}
use mobile_db.Sync.Rounds.{
  JsonWorks, Grows, Grows-none, rows_of, merge-Grows, maybe_compact-Carries, snapshot-Carries,
  delta-Carries,
}
use mobile_db.Sync.Serving.{
  Lands, Lands-bind, Settles, Settles-return, Settles-store, Settles-ignore, Settles-try_or,
  Settles-listen, Settles-bind,
}

module _ {V N : Type 0} (json : Json V) (works : JsonWorks json) (o : MapOrder)
    (notifier : Notifier N) (threshold : ℤ) (msg : SyncMessage V) where
  abbrev rows : Logs → List Row
  rows = rows_of json works msg.app_id msg.user_id msg.dataset_id

  version : Logs → ℤ
  version l = version_of (get l.datasets (msg.app_id, msg.dataset_id))

  version-Lands : (l : Logs) → Lands (get_schema_version msg.app_id msg.dataset_id) l (version l) l
  unfolding get_schema_version version
  version-Lands l c k q = Runs-stmt (moved c l k) _ (version l) l q refl

  needs-Lands :
      (l : Logs)
      → Lands
          (needs_snapshot (crsqlite json o) msg.app_id msg.dataset_id msg.client_schema_version)
          l
          (ltb_ℤ msg.client_schema_version (version l))
          l
  unfolding needs_snapshot
  needs-Lands l =
      Lands-bind (get_schema_version msg.app_id msg.dataset_id) _ l (version l) l _ l
        (version-Lands l) (λ c k q. record { calls = k; result = refl })

  snapshot-Settles :
      (needs : Bool) (l : Logs)
      → Sound json (rows l)
      → (snap : Option (Dict Str V)) × (t : Logs) × Settles
          (read_snapshot (crsqlite json o) notifier msg needs)
          l
          snap
          t
        × (rows t ≡ rows l)
  unfolding read_snapshot
  snapshot-Settles false l s = (none, l, Settles-return l none, refl)
  snapshot-Settles true l s =
      let (snap, lands) = snapshot-Carries json works msg.app_id msg.user_id msg.dataset_id o l s in
      let t = ensured msg.app_id msg.user_id msg.dataset_id l in
      (
        some (snap.0),
        t,
        Settles-bind (on_store _) _ l snap t (some (snap.0)) t (Settles-store _ l snap t lands)
            (Settles-return t (some (snap.0))),
        rows_at-ensured msg.app_id msg.user_id msg.dataset_id l,
      )

  take-Settles :
      (ops : List (CrdtOp V)) (l : Logs)
      → Sound json (rows l)
      → (t : Logs) × Settles (take_ops (crsqlite json o) notifier threshold msg ops) l tt t
        × Grows json ops (rows l) (rows t)
  unfolding take_ops
  take-Settles [] l s = (l, Settles-return l tt, Grows-none json (rows l) s)
  take-Settles (op ∷ ops) l s =
      let a = msg.app_id in
      let u = msg.user_id in
      let d = msg.dataset_id in
      let (t, merges, grows) = merge-Grows json works a u d (op ∷ ops) l s in
      let (t', compacts, carries) =
        maybe_compact-Carries json works a u d o threshold t grows.sound in
      (
        t',
        Settles-bind (on_store (merge_ops json a u d (op ∷ ops))) _ l tt t tt t'
            (Settles-store _ l tt t merges)
            (Settles-bind (ignore (on_listeners (notifier.notify a u)))
              (λ _. ignore (on_store (maybe_compact (crsqlite json o) threshold a u d))) t tt t tt
              t' (Settles-listen (notifier.notify a u) t)
              (Settles-ignore _ t tt t' (Settles-store _ t tt t' compacts))),
        carries (op ∷ ops) (rows l) grows,
      )

  -- From a readable table every sync settles: with a reply whose operations are the rows that the
  -- message's cursor selects afterwards, and with a table that has grown by the message's operations.
  pub answer-Settles :
      (server_clock : Hlc) (l : Logs)
      → Sound json (rows l)
      → (reply : SyncResponse V (Dict Str V)) × (t : Logs) × Settles
          (answer (crsqlite json o) notifier threshold msg server_clock)
          l
          reply
          t
        × Grows json msg.ops (rows l) (rows t)
        × (scan_rows json (selected msg.clock (rows t)) ≡ ok reply.ops)
  unfolding answer
  answer-Settles server_clock l s =
      let a = msg.app_id in
      let u = msg.user_id in
      let d = msg.dataset_id in
      let needs = ltb_ℤ msg.client_schema_version (version l) in
      let (snap, t1, snaps, same1) = snapshot-Settles needs l s in
      let (t2, takes, grows) = take-Settles msg.ops t1 (rw same1 s) in
      let (read, deltas, scanned) = delta-Carries json works a u d msg.clock t2 grows.sound in
      let t3 = ensured a u d t2 in
      let delta : List (CrdtOp V) × Hlc = (read, max_hlc zero_hlc read) in
      let same3 = rows_at-ensured a u d t2 in
      let v = version t3 in
      let reply_at : ℤ → SyncResponse V (Dict Str V) = λ version'. record {
        new_clock = reply_clock delta.1 server_clock;
        ops = read;
        snapshot = snap;
        schema_version = version';
      } in
      let reply = reply_at v in
      (
        reply,
        t3,
        Settles-bind (on_store (needs_snapshot (crsqlite json o) a d msg.client_schema_version)) _ l
            needs l reply t3 (Settles-store _ l needs l (needs-Lands l))
            (Settles-bind (read_snapshot (crsqlite json o) notifier msg needs) _ l snap t1 reply t3
              snaps
              (Settles-bind (take_ops (crsqlite json o) notifier threshold msg msg.ops) _ t1 tt t2
                reply t3 takes
                (Settles-bind (on_store (get_delta json a u d msg.clock)) _ t2 delta t3 reply t3
                  (Settles-store _ t2 delta t3 deltas)
                  (Settles-bind (try_or (pos 0) (on_store (get_schema_version a d)))
                    (λ version'. return (reply_at version')) t3 v t3 reply t3
                    (Settles-try_or _ (pos 0) v t3 t3 (Settles-store _ t3 v t3 (version-Lands t3)))
                    (Settles-return t3 reply))))),
        rw same3 (rw same1 at grows),
        rw same3 scanned,
      )
