-- ===== src/Server/RequestLog.antt =====
-- server/middleware/logging.go: the log of requests, with the app id that the token check leaves in
-- the context of a request. What the log is written to keeps its entries, the last one first. The path,
-- the address and the duration of a request are arguments.
pub mod Entries
use mobile_db.Prelude.{ℕ, Str, none, some, List, [], ◌∷◌}
use mobile_db.Prelude.Eff.{Eff}
use mobile_db.Server.Requests.{Request, Response, Handler, SyncParts}

pub record LogEntry : Type 0 where
  pub method : Str
  pub path : Str
  pub status : ℕ
  pub duration_ms : ℕ
  pub remote_addr : Str
  pub app_id : Str

-- The state of the handlers, the `logMeta` of the request in hand, and the log.
pub record Logging (S : Type 0) : Type 0 where
  pub rest : S
  pub meta_app : Str
  pub entries : List LogEntry

-- What the log says of where a request came from and how long it took.
pub record Arrival : Type 0 where
  pub path : Str
  pub remote_addr : Str
  pub duration_ms : ℕ

module _ {S : Type 0} where
  -- `m.appID = claims.AppID`
  unfoldable pub note_app : Str → Logging S → Logging S
  note_app app l = record l { meta_app = app }

  unfoldable pub entry_of : Arrival → Request → Response → Logging S → LogEntry
  entry_of a r out l = record {
    method = r.method;
    path = a.path;
    status = out.status;
    duration_ms = a.duration_ms;
    remote_addr = a.remote_addr;
    app_id = l.meta_app;
  }

  -- `RequestLogger`
  unfoldable pub request_logger : Arrival → Handler (Logging S) → Handler (Logging S)
  unfolding entry_of
  request_logger a next r l =
      let (out, l') = next r (record l { meta_app = [] }) in
      (out, record l' { entries = entry_of a r out l' ∷ l'.entries })

module _ {S A : Type 0} where
  -- What knows nothing of the log.
  abbrev pub on_rest : Eff S A → Eff (Logging S) A
  on_rest m l = ((m l.rest).0, record l { rest = (m l.rest).1 })

module _ {V Snap S : Type 0} where
  abbrev pub logging_parts : SyncParts V Snap S → SyncParts V Snap (Logging S)
  logging_parts p = record {
    read_limited = p.read_limited;
    decompress = p.decompress;
    decode = p.decode;
    run_sync = λ msg. on_rest (p.run_sync msg);
    write_event = elim p.write_event [
      | none ↦ none
      | some write ↦ some (λ app dataset user device n. on_rest (write app dataset user device n))
    ];
    encode = p.encode;
    compress = p.compress;
  }
