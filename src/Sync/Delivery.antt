-- ===== src/Sync/Delivery.antt =====
-- core/sync/engine.go over the SQLite backend: what one client pushes, another gets.
use mobile_db.Prelude.{
  ◌==◌, nat_eq, pair_eq, ℤ, pos, ◌<ℤ◌, ℤ_eq, Str, str_eq_inst, All, ◌≡◌, refl, sym, ◌∙◌, true,
  false, List, [], ◌∷◌, Memᴰ, arith,
}
use mobile_db.Prelude.Dict.{Dict, MapOrder}
use mobile_db.Prelude.Exec.{ok, Conn}
use mobile_db.Prelude.Exec.Runs.{Quiet}
use mathlib.Core.Path.{subst}
use mobile_db.Core.{Hlc, CrdtOp, SyncMessage, SyncResponse}
use mobile_db.Crdt.Hlc.{before, receive}
use mobile_db.Crdt.Hlc.Order.{before_trans, before_trichotomy}
use mobile_db.Storage.OpLog.{Logs, Json, Row, selected, scan_rows}
use mobile_db.Storage.OpLog.Inserts.{has_id}
use mobile_db.Storage.OpLog.Ensure.{key_of, rows_at}
use mobile_db.Storage.OpLog.Queries.{
  stamp_of, is_after-before, mem_of_selected, mem-scan_rows, Reads-parts,
}
use mobile_db.Storage.Backend.Holds.{Holds, Sound, DistinctOps, stored_at}
use mobile_db.Sync.{Notifier, Site, sync}
use mobile_db.Sync.Answers.{answer-Settles}
use mobile_db.Sync.Crsqlite.{crsqlite}
use mobile_db.Sync.Rounds.{JsonWorks, Grows}

-- The table of a message's dataset.
abbrev pub table_of : {V : Type 0} → SyncMessage V → Str
table_of msg = key_of msg.app_id msg.user_id msg.dataset_id

-- What lies before a timestamp lies before what is not before that.
before_not-before : (a b c : Hlc) → before a b ≡ true → before c b ≡ false → before a c ≡ true
before_not-before a b c h k =
    ground (arith, before_trichotomy b c, before_trichotomy c b, before_trans a b c)

module _ {V N : Type 0} (json : Json V) (o : MapOrder) (notifier : Notifier N) (threshold : ℤ) where
  -- The site after a sequence of syncs, each with its reading of the clock, whatever their outcomes.
  unfoldable pub after_syncs : List (ℤ × SyncMessage V) → Site (Conn Logs) N → Site (Conn Logs) N
  after_syncs [] w = w
  after_syncs ((now, msg) ∷ rest) w =
      after_syncs rest (sync (crsqlite json o) notifier threshold now msg w).1

  -- A sync that was answered, of a message for the table `key`.
  record Round (key : Str) (now : ℤ) (msg : SyncMessage V) (w : Site (Conn Logs) N) : Type 0 where
    reply : SyncResponse V (Dict Str V)
    answered : (sync (crsqlite json o) notifier threshold now msg w).0 ≡ ok reply
    quiet : Quiet (sync (crsqlite json o) notifier threshold now msg w).1.store
    grows :
        Grows json msg.ops
          (rows_at w.store.tables key)
          (rows_at (sync (crsqlite json o) notifier threshold now msg w).1.store.tables key)
    scanned :
        scan_rows json (
          selected msg.clock
            (rows_at (sync (crsqlite json o) notifier threshold now msg w).1.store.tables key))
        ≡ ok reply.ops

  module _ (works : JsonWorks json) where
    sync-Round :
        (key : Str) (now : ℤ) (msg : SyncMessage V) (w : Site (Conn Logs) N)
        → table_of msg ≡ key
        → Quiet w.store
        → Sound json (rows_at w.store.tables key)
        → Round key now msg w
    unfolding sync
    sync-Round key now msg w e q s =
        let r = receive w.clock now msg.clock in
        let l = w.store.tables in
        let s' : Sound json (rows_at l (table_of msg)) =
          subst (λ k. Sound json (rows_at l k)) (sym e) s in
        let (reply, t, settles, grows, scanned) =
          answer-Settles json works o notifier threshold msg r.1 l s' in
        let run = settles (record w { clock = r.0 }) w.store.calls w.listeners q in
        record {
          reply = reply;
          answered = rw run.result refl;
          quiet = rw run.result q;
          grows =
              rw run.result (subst (λ k. Grows json msg.ops (rows_at l k) (rows_at t k)) e grows);
          scanned = rw run.result (
              subst (λ k. scan_rows json (selected msg.clock (rows_at t k)) ≡ ok reply.ops) e
                scanned);
        }

    -- What the table holds it goes on to hold, over any sequence of syncs of that table.
    after_syncs-Holds :
        (key d f : Str) (t : Hlc) (later : List (ℤ × SyncMessage V)) (w : Site (Conn Logs) N)
        → All (λ p. table_of (p.1) ≡ key) later
        → Quiet w.store
        → Sound json (rows_at w.store.tables key)
        → Holds d f t (rows_at w.store.tables key)
        → Quiet (after_syncs later w).store
          × Sound json (rows_at (after_syncs later w).store.tables key)
          × Holds d f t (rows_at (after_syncs later w).store.tables key)
    unfolding after_syncs
    after_syncs-Holds key d f t [] w e q s h = (q, s, h)
    after_syncs-Holds key d f t ((now, msg) ∷ later) w e q s h =
        let r = sync-Round key now msg w e.0 q s in
        after_syncs-Holds key d f t later _ e.1 r.quiet r.grows.sound (r.grows.keeps d f t h)

    -- A message whose cursor lies before what is held reads an operation for it.
    reads_held :
        (d f : Str) (t since : Hlc) (rows : List Row) (ops : List (CrdtOp V))
        → Holds d f t rows
        → (since.device_id == []) ≡ false
        → before since t ≡ true
        → scan_rows json (selected since rows) ≡ ok ops
        → (got : CrdtOp V) × Memᴰ got ops
          × (got.doc_id ≡ d)
          × (got.field ≡ f)
          × (before got.timestamp t ≡ false)
    reads_held d f t since rows ops h device past scanned =
        let later = before_not-before since t (stamp_of h.row) past h.newer in
        let sel =
          mem_of_selected since rows h.present h.active
            (is_after-before since h.row device ∙ later) in
        let (got, m, reads) = mem-scan_rows json (selected since rows) ops scanned sel in
        let (doc, field, stamp) = Reads-parts json h.row got reads in
        (got, m, doc ∙ h.doc, field ∙ h.field, rw stamp h.newer)

    -- Let json.Marshal accept every value and every document that the backend writes, and
    -- json.Unmarshal what it made. Let a sync, whose operations have distinct op_ids, bring an
    -- operation with a new op_id and a positive wall time, on a connection without driver errors, to
    -- a table with distinct op_ids and readable values; let any sequence of syncs of that table
    -- follow, with compactions or without. A client whose cursor has a device and lies before the
    -- operation's timestamp, as the store keeps it, then syncs that table: it gets a reply, which
    -- holds an operation for the same document and field that is not older.
    pub sync_delivers :
        (msg reader : SyncMessage V) (now now' : ℤ) (later : List (ℤ × SyncMessage V))
        (w : Site (Conn Logs) N) (op : CrdtOp V)
        → Quiet w.store
        → Sound json (rows_at w.store.tables (table_of msg))
        → Memᴰ op msg.ops
        → DistinctOps msg.ops
        → has_id op.op_id (rows_at w.store.tables (table_of msg)) ≡ false
        → pos 0 <ℤ op.timestamp.wall_time
        → All (λ p. table_of (p.1) ≡ table_of msg) later
        → table_of reader ≡ table_of msg
        → (reader.clock.device_id == []) ≡ false
        → before reader.clock (stored_at op) ≡ true
        → (reply : SyncResponse V (Dict Str V)) × ((sync
              (crsqlite json o)
              notifier
              threshold
              now'
              reader
              (after_syncs later (sync (crsqlite json o) notifier threshold now msg w).1)).0
            ≡ ok reply)
          × (got : CrdtOp V) × Memᴰ got reply.ops
          × (got.doc_id ≡ op.doc_id)
          × (got.field ≡ op.field)
          × (before got.timestamp (stored_at op) ≡ false)
    sync_delivers msg reader now now' later w op q s m distinct fresh positive same same' device
          past =
        let key = table_of msg in
        let first = sync-Round key now msg w refl q s in
        let held = first.grows.stores op m distinct fresh positive in
        let w' = (sync (crsqlite json o) notifier threshold now msg w).1 in
        let (q', s', held') =
          after_syncs-Holds key op.doc_id op.field (stored_at op) later w' same first.quiet
            first.grows.sound held in
        let last = sync-Round key now' reader (after_syncs later w') same' q' s' in
        let (got, m', doc, field, newer) =
          reads_held op.doc_id op.field (stored_at op) reader.clock _ last.reply.ops
            (last.grows.keeps op.doc_id op.field (stored_at op) held') device past last.scanned in
        (last.reply, last.answered, got, m', doc, field, newer)
