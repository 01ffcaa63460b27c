-- ===== src/Lib.antt =====
-- Verification of mobile-db, a server that keeps the operation logs of mobile apps and syncs them.
--
-- A client sends a message with its last timestamp and its new operations. The sync engine advances
-- the server's hybrid logical clock, asks the storage backend whether the client needs a snapshot,
-- merges the operations, notifies the user's event streams, compacts the log when it is long, and
-- replies with the operations after the client's timestamp. Devices hold keys; the admin pages show
-- devices, sync events, documents and metrics, and stand behind a password with a limit on attempts.
--
-- Files and code:
-- - Core: core/types.go.
-- - Crdt/Hlc: core/crdt/hlc.go. `time.Now()` is an argument, and int64 and uint32 wrap around.
--   Order, Advance and Runs prove the order of timestamps, of single calls and of runs of calls.
-- - Crdt/Merge: core/crdt/merge.go. Picks, Collect and Winners relate the maps to the latest write.
-- - Storage/TableName and Storage/OpLog: storage/crsqlite/data.go. A SQL statement is a function on
--   the tables (`Logs`), a call on the connection (`Act`) may end in a driver error at any statement,
--   and a transaction rolls back on error.
-- - Storage/Backend: storage/crsqlite/backend.go. Holds and Held say what its tables keep for good.
--   Storage/Meta: the schema versions of storage/crsqlite/meta.go.
-- - Storage/Database: storage/crsqlite/open.go, storage/crsqlite/metadb.go, the metadata tables of
--   storage/crsqlite/meta.go and the opening of a backend. Opening, Schema and Backends follow one
--   opening, Drivers and Calls any sequence of them.
-- - Sync: core/sync/engine.go, core/crdt/compaction.go, core/crdt/schema.go and the interface
--   StorageBackend of core/interfaces.go, over any backend and notifier. Crsqlite makes the storage
--   backend one.
--   Serving, Rounds, Answers and Delivery follow syncs over it without driver errors. Stubs has the
--   stubs of core/interfaces.go.
-- - Server/Device: server/auth/device.go, server/auth/store.go, storage/crsqlite/authstore.go.
-- - Server/AdminGate: server/middleware/admin.go, as one call. Overlap takes the test of the limit and
--   the look at the password as turns that interleave; Serial relates the two.
-- - Server/Requests: server/middleware/auth.go, server/handlers/sync.go and the sync route of
--   server/router.go. Route follows a successful response back through the middleware.
-- - Server/RequestLog: server/middleware/logging.go, over any handler; Entries follows POST /sync.
-- - Server/Tokens: server/auth/jwt.go, the validation of tokens, the cached keys and their decoding.
-- - Server/Config: server/config.go. Server/Accounts: server/auth/handlers.go, and the routes that
--   lead there. Server/Backup: server/backup/backup.go, one run; Loop has the timer and the signal to
--   stop, as events.
-- - Server/Lifecycle: `Run` of server/server.go and main.go, with the closing of what it opened.
-- - Transport: transport/http2/sse.go, the broadcaster. Transport/Streams: the event streams and the
--   notifications as steps that interleave.
-- - Admin: the pages of admin/ over the stores of storage/crsqlite/adminstore.go. Devices, Events, Data
--   and Metrics are a store and its page each, Web is what they share, Router is admin/router.go.
-- - Site: the muxes of server/server.go and server/router.go, and the gate before the admin pages.
-- - Prelude: integers, bytes, lists, maps, calls that fail. Tests: examples at concrete inputs.
--
-- A Go map is an association list with distinct keys, and a loop over it visits the entries in an
-- order that is a parameter (`MapOrder`). A text is its list of bytes. All loops are structural
-- recursion, so no fuel is used. A field's JSON value and encoding/json, bcrypt, the random bytes,
-- uuids and the splitting of network addresses are parameters; the texts of errors are left out, but
-- for those of the admin gate.
-- Calls run one after the other, except for the event streams and the admin gate, and where a theorem
-- places one call between the steps of another.
-- The tables of SQLite are lists of rows in the order of insertion; operations that agree in the whole
-- timestamp are read in that order, which SQLite leaves open. A rollback restores the tables.
--
-- What html/template makes of a page's view is a parameter, as are encoding/json on the bodies of
-- requests, float64 and the order in which SQLite returns rows of one date (`RowOrder`).
--
-- Not modelled: the health check and the registration of counters, which report what no code changes;
-- codecs and compression wrap third-party code.
-- Of the metadata schema only the names of tables and indexes are kept.
pub mod Prelude
pub mod Core
pub mod Crdt
pub mod Storage
pub mod Sync
pub mod Server
pub mod Transport
pub mod Admin
pub mod Site
pub mod Tests
