-- ===== src/Transport/Streams/Wakeups.antt =====
-- No notification is lost: which channels hold a message, or are about to.
use mobile_db.Prelude.{
  ℕ, suc, nat_beq_iff, Bool-cases, ◌==◌, nat_eq, pair_eq, ℤ_eq, Str, str_eq_inst, ◌≡◌, refl, ap,
  ◌∙◌, inl, inr, Bool, true, false, ◌||◌, List, [], ◌∷◌, ◌++◌, Memᴰ, arith,
}
use mobile_db.Prelude.Dict.{get-put, get-put_self}
use mobile_db.Transport.{sub_key, subs_at, is_full, subscribe, unsubscribe, send_all, notify}
use mobile_db.Transport.Delivery.{among, get-send_all}
use mobile_db.Transport.Streams.{
  Stream, World, is_owed, event_count, open_stream, begin_notify, send_one, write_event,
  close_stream, Step, opens, notifies, sends, writes, closes, Steps, here, later, no_streams,
}

-- Some notification that runs has not sent into the channel yet.
abbrev pub pending : ℕ → List (List ℕ) → Bool
pending ch [] = false
pending ch (chs ∷ rest) = among ch chs || pending ch rest

pending-sent :
    (c : ℕ) (before : List (List ℕ)) (ch : ℕ) (chs : List ℕ) (after : List (List ℕ))
    → pending c (before ++ ((ch ∷ chs) ∷ after)) ≡ (ch == c || pending c (before ++ (chs ∷ after)))
pending-sent c [] ch chs after = ground arith
pending-sent c (b ∷ before) ch chs after = ground (arith, pending-sent c before ch chs after)

-- The channel holds a message, or a send into it is still to come.
abbrev pub covered : ℕ → World → Bool
covered ch w = is_full ch w.hub || pending ch w.sending

Step-covered :
    (c : ℕ) {w v : World}
    → Step w v
    → (is_owed c w ≡ true → covered c w ≡ true)
    → is_owed c v ≡ true
    → covered c v ≡ true
unfolding is_owed is_full open_stream begin_notify send_one write_event close_stream subscribe
    unsubscribe
Step-covered c {w} (opens a u) inv h = inv h
Step-covered c {w} (notifies a u) inv h =
    ground (arith, get-send_all (subs_at (sub_key a u) w.hub) w.owed c, inv)
Step-covered c {w} (sends before ch chs after e) inv h = ground (
  arith,
  get-put w.hub.full ch true c,
  pending-sent c before ch chs after,
  ap (pending c) e,
  inv h,
)
Step-covered c {w} (writes s m full) inv h =
    ground (arith, get-put w.hub.full s.ch false c, get-put w.owed s.ch false c, inv)
Step-covered c {w} (closes s m) inv h = inv h

-- Whatever the order of the steps, a channel that a notification owes an event holds a message or is
-- about to be sent one.
pub Steps-covered :
    (c : ℕ) {w : World} → Steps no_streams w → is_owed c w ≡ true → covered c w ≡ true
unfolding is_owed is_full
Steps-covered c here h = cc
Steps-covered c (later r st) h = Step-covered c st (Steps-covered c r) h

sooner : {w v u : World} → Step w v → Steps v u → Steps w u
sooner st here = later here st
sooner st (later r st') = later (sooner st r) st'

-- The streams and their events are as before, and the channel holds a message.
pub record Woken (ch : ℕ) (w : World) : Type 0 where
  pub there : World
  pub run : Steps w there
  pub holds : is_full ch there.hub ≡ true
  pub same_streams : there.streams ≡ w.streams
  pub same_events : there.events ≡ w.events

is_full-send_one :
    (ch : ℕ) (sending : List (List ℕ)) (w : World) → is_full ch (send_one ch sending w).hub ≡ true
unfolding is_full send_one
is_full-send_one ch sending w = ground (arith, get-put_self w.hub.full ch true)

write_event_lem :
    (ch : ℕ) (w : World)
    → (event_count ch (write_event ch w) ≡ suc (event_count ch w))
      × (is_owed ch (write_event ch w) ≡ false)
unfolding is_owed write_event event_count
write_event_lem ch w =
    ground (arith, get-put_self w.events ch (suc (event_count ch w)), get-put_self w.owed ch false)

event_count-same :
    (ch : ℕ) (w v : World) → w.events ≡ v.events → event_count ch w ≡ event_count ch v
unfolding event_count
event_count-same ch w v e = rw e refl

wake :
    (ch : ℕ) (before : List (List ℕ)) (first next : List ℕ) (after : List (List ℕ)) (w : World)
    → w.sending ≡ before ++ ((first ++ (ch ∷ next)) ∷ after)
    → Woken ch w
unfolding send_one
wake ch before [] next after w e = record {
  there = send_one ch (before ++ (next ∷ after)) w;
  run = later here (sends before ch next after e);
  holds = is_full-send_one ch (before ++ (next ∷ after)) w;
  same_streams = refl;
  same_events = refl;
}
wake ch before (c ∷ first) next after w e =
    let rest = before ++ ((first ++ (ch ∷ next)) ∷ after) in
    let woken = wake ch before first next after (send_one c rest w) refl in
    record {
      there = woken.there;
      run = sooner (sends before c (first ++ (ch ∷ next)) after e) woken.run;
      holds = woken.holds;
      same_streams = woken.same_streams;
      same_events = woken.same_events;
    }

split_among :
    (ch : ℕ) (chs : List ℕ)
    → among ch chs ≡ true
    → (first : List ℕ) × (next : List ℕ) × (chs ≡ first ++ (ch ∷ next))
split_among ch [] h = cc
split_among ch (c ∷ chs) h = elim (Bool-cases (c == ch)) [
  | inl e ↦ ([], chs, ap (λ x. x ∷ chs) ((nat_beq_iff c ch).0 e))
  | inr e ↦
      let (first, next, s) = split_among ch chs (rw e at h) in (c ∷ first, next, ap (λ x. c ∷ x) s)
]

split_pending :
    (ch : ℕ) (sending : List (List ℕ))
    → pending ch sending ≡ true
    → (before : List (List ℕ)) × (first : List ℕ) × (next : List ℕ) × (after : List (List ℕ))
      × (sending ≡ before ++ ((first ++ (ch ∷ next)) ∷ after))
split_pending ch [] h = cc
split_pending ch (chs ∷ rest) h = elim (Bool-cases (among ch chs)) [
  | inl e ↦
      let (first, next, s) = split_among ch chs e in ([], first, next, rest, ap (λ x. x ∷ rest) s)
  | inr e ↦
      let (before, first, next, after, s) = split_pending ch rest (rw e at h) in
      (chs ∷ before, first, next, after, ap (λ x. chs ∷ x) s)
]

covered-Woken : (ch : ℕ) (w : World) → covered ch w ≡ true → Woken ch w
covered-Woken ch w h = elim (Bool-cases (is_full ch w.hub)) [
  | inl e ↦ record { there = w; run = here; holds = e; same_streams = refl; same_events = refl }
  | inr e ↦
      let (before, first, next, after, s) = split_pending ch w.sending (rw e at h) in
      wake ch before first next after w s
]

-- An open stream that a notification owes an event can write it: from any state that the steps lead
-- to there are steps after which it has written one event more, and none is owed.
pub owed_delivered :
    (s : Stream) (w : World)
    → Steps no_streams w
    → Memᴰ s w.streams
    → is_owed s.ch w ≡ true
    → (v : World) × Steps w v
      × (event_count s.ch v ≡ suc (event_count s.ch w))
      × (is_owed s.ch v ≡ false)
owed_delivered s w r m h =
    let woken = covered-Woken s.ch w (Steps-covered s.ch r h) in
    let u = woken.there in
    let (written, settled) = write_event_lem s.ch u in
    (
      write_event s.ch u,
      later woken.run (writes s (rw woken.same_streams m) woken.holds),
      written ∙ ap suc (event_count-same s.ch u w woken.same_events),
      settled,
    )

sends_all :
    (chs : List ℕ) (rest : List (List ℕ)) (w : World)
    → w.sending ≡ chs ∷ rest
    → (v : World) × Steps w v × (v.hub ≡ record w.hub { full = send_all chs w.hub.full })
unfolding send_all send_one
sends_all [] rest w e = (w, here, refl)
sends_all (ch ∷ chs) rest w e =
    let (v, r, same) = sends_all chs rest (send_one ch (chs ∷ rest) w) refl in
    (v, sooner (sends [] ch chs rest e) r, same)

-- The steps of a notification, one after the other, leave the hub as `notify` leaves it.
pub notify-Steps :
    (app_id user_id : Str) (w : World)
    → (v : World) × Steps w v × (v.hub ≡ (notify app_id user_id w.hub).1)
unfolding notify begin_notify
notify-Steps app_id user_id w =
    let chs = subs_at (sub_key app_id user_id) w.hub in
    let (v, r, same) = sends_all chs w.sending (begin_notify app_id user_id w) refl in
    (v, sooner (notifies app_id user_id) r, same)
