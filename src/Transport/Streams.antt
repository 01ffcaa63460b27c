-- ===== src/Transport/Streams.antt =====
-- transport/http2/sse.go: the event streams as steps that interleave. The mutex makes a subscription,
-- the end of one, and the copy of the subscribers that a notification takes single steps; each send
-- into a channel and each turn of a stream's loop is a step too. The response can be flushed.
pub mod Wakeups
use mobile_db.Prelude.{
  ℕ, suc, if◌then◌else◌, ◌==◌, nat_eq, pair_eq, ℤ_eq, Str, str_eq_inst, ◌≡◌, Bool, true, false,
  none, some, List, [], ◌∷◌, ◌++◌, Memᴰ,
}
use mobile_db.Prelude.Dict.{Dict, get, put}
use mobile_db.Transport.{Hub, sub_key, subs_at, is_full, subscribe, unsubscribe, send_all}

-- An open stream, with the channel that it waits on.
pub record Stream : Type 0 where
  pub app_id : Str
  pub user_id : Str
  pub ch : ℕ

-- `sending`: for each notification that runs, the channels it has not sent into yet. `owed`: the
-- channels of a notification that began after the last event of their stream; the program does not
-- keep it. `events`: how many events a stream has written, by channel.
pub record World : Type 0 where
  pub hub : Hub
  pub streams : List Stream
  pub sending : List (List ℕ)
  pub owed : Dict ℕ Bool
  pub events : Dict ℕ ℕ

unfoldable pub is_owed : ℕ → World → Bool
is_owed ch w = elim (get w.owed ch) [ none ↦ false | some x ↦ x ]

unfoldable pub event_count : ℕ → World → ℕ
event_count ch w = elim (get w.events ch) [ none ↦ 0 | some n ↦ n ]

-- `SSEHandler` up to its loop
unfoldable pub open_stream : Str → Str → World → World
open_stream app_id user_id w =
    let (ch, hub) = subscribe app_id user_id w.hub in
    record w {
      hub = hub;
      streams = record { app_id = app_id; user_id = user_id; ch = ch } ∷ w.streams;
    }

-- `Notify` up to its loop: it copies the subscribers.
unfoldable pub begin_notify : Str → Str → World → World
begin_notify app_id user_id w =
    let chs = subs_at (sub_key app_id user_id) w.hub in
    record w { sending = chs ∷ w.sending; owed = send_all chs w.owed }

-- One turn of the loop of `Notify`: a send that does not wait, after which `sending` is left.
unfoldable pub send_one : ℕ → List (List ℕ) → World → World
send_one ch sending w =
    let hub : Hub = record w.hub { full = put w.hub.full ch true } in
    record w { hub = hub; sending = sending }

-- One turn of a stream's loop: it takes the message and writes an event.
unfoldable pub write_event : ℕ → World → World
unfolding event_count
write_event ch w =
    let hub : Hub = record w.hub { full = put w.hub.full ch false } in
    record w {
      hub = hub;
      owed = put w.owed ch false;
      events = put w.events ch (suc (event_count ch w));
    }

unfoldable pub drop_stream : ℕ → List Stream → List Stream
drop_stream ch [] = []
drop_stream ch (s ∷ ss) = let rest = drop_stream ch ss in if s.ch == ch then rest else s ∷ rest

-- The request's context is done: the deferred `Unsubscribe`.
unfoldable pub close_stream : Stream → World → World
unfolding drop_stream
close_stream s w = record w {
  hub = unsubscribe s.app_id s.user_id s.ch w.hub;
  streams = drop_stream s.ch w.streams;
}

pub data Step (w : World) : World → Type 0 where
  opens : (app_id user_id : Str) → Step w (open_stream app_id user_id w)
  notifies : (app_id user_id : Str) → Step w (begin_notify app_id user_id w)
  sends :
      (before : List (List ℕ)) (ch : ℕ) (chs : List ℕ) (after : List (List ℕ))
      → w.sending ≡ before ++ ((ch ∷ chs) ∷ after)
      → Step w (send_one ch (before ++ (chs ∷ after)) w)
  writes : (s : Stream) → Memᴰ s w.streams → is_full s.ch w.hub ≡ true → Step w (write_event s.ch w)
  closes : (s : Stream) → Memᴰ s w.streams → Step w (close_stream s w)

-- Any number of steps.
pub data Steps (w : World) : World → Type 0 where
  here : Steps w w
  later : {v u : World} → Steps w v → Step v u → Steps w u

abbrev pub no_streams : World
no_streams = record {
  hub = record { subs = []; made = 0; full = [] };
  streams = [];
  sending = [];
  owed = [];
  events = [];
}
