-- ===== src/Admin/Events/Aggregates.antt =====
-- The aggregates of the sync events.
use mobile_db.Prelude.{
  pair_beq_iff, ℕ, ◌+◌, leb, Bool-cases, ◌==◌, nat_eq, pair_eq, ℤ_eq, Str, str_eq_iff, str_eq_inst,
  length, select, All, ◌≡◌, refl, sym, ap, ◌∙◌, inl, inr, Bool, true, ◌&&◌, Option, none, some,
  List, [], ◌∷◌, map, arith,
}
use mobile_db.Prelude.Rows.{RowOrder, Falling}
use mobile_db.Prelude.Dict.{Dict, get, put, get-put, Unique, put-Unique}
use mobile_db.Prelude.Perms.{select-Permᴰ, Permᴰ-none, Permᴰ-one}
use mathlib.Core.List.{Permᴰ}
use mobile_db.Prelude.Exec.{ok, Conn}
use mobile_db.Prelude.Exec.Runs.{stmt_read}
use mobile_db.Admin.Events.{
  SyncEvent, EventTable, SyncAggregate, recent, max_of, add_event, group_events,
  list_sync_aggregates,
}

abbrev pub belongs : Str → Str → SyncEvent → Bool
belongs app dataset e = e.app_id == app && e.dataset_id == dataset

abbrev pub sum_ops : List SyncEvent → ℕ
sum_ops [] = 0
sum_ops (e ∷ es) = e.op_count + sum_ops es

abbrev pub last_of : List SyncEvent → ℕ
last_of [] = 0
last_of (e ∷ es) = max_of e.synced_at (last_of es)

-- What the aggregate of some events says, `none` for no events.
abbrev pub Sums : ℕ → List SyncEvent → Option SyncAggregate → Type 0
Sums since [] o = o ≡ none
Sums since (e ∷ es) o =
    (a : SyncAggregate) × (o ≡ some a)
    × (a.app_id ≡ e.app_id)
    × (a.dataset_id ≡ e.dataset_id)
    × (a.total_ops ≡ sum_ops (e ∷ es))
    × (a.syncs_24h ≡ length (select (λ x. leb since x.synced_at) (e ∷ es)))
    × (a.last_sync ≡ last_of (e ∷ es))

add_event-Sums :
    (since : ℕ) (e : SyncEvent) (es : List SyncEvent) (o : Option SyncAggregate)
    → All (λ x. (x.app_id ≡ e.app_id) × (x.dataset_id ≡ e.dataset_id)) es
    → Sums since es o
    → Sums since (e ∷ es) (some (add_event since e o))
unfolding add_event recent select max_of
add_event-Sums since e [] o _ h =
    rw h (add_event since e none, refl, refl, refl, omega arith, ground arith, ground arith)
add_event-Sums since e (x ∷ es) o same (a, is, app, dataset, total, syncs, last) = rw is (
  add_event since e (some a),
  refl,
  refl,
  refl,
  omega (arith, total),
  ground (arith, syncs),
  ap (max_of e.synced_at) last,
)

-- Two events of one group.
alike :
    (app dataset : Str) (e : SyncEvent) (es : List SyncEvent)
    → belongs app dataset e ≡ true
    → All
        (λ x. (x.app_id ≡ e.app_id) × (x.dataset_id ≡ e.dataset_id))
        (select (belongs app dataset) es)
unfolding select
alike app dataset e [] h = tt
alike app dataset e (x ∷ es) h = elim (Bool-cases (belongs app dataset x)) [
  | inr b ↦ rw b (alike app dataset e es h)
  | inl b ↦ rw b (
    (
      ground (arith, str_eq_iff x.app_id app, str_eq_iff e.app_id app, h, b),
      ground (arith, str_eq_iff x.dataset_id dataset, str_eq_iff e.dataset_id dataset, h, b),
    ),
    alike app dataset e es h,
  )
]

-- The group of an app's dataset sums up its events, and there is none when there are no events.
pub group_events-Sums :
    (since : ℕ) (es : List SyncEvent) (app dataset : Str)
    → Sums since (select (belongs app dataset) es) (get (group_events since es) (app, dataset))
unfolding group_events select get
group_events-Sums since [] app dataset = refl
group_events-Sums since (e ∷ es) app dataset =
    let groups = group_events since es in
    let key : Str × Str = (e.app_id, e.dataset_id) in
    let put_one = get-put groups key (add_event since e (get groups key)) (app, dataset) in
    elim (Bool-cases (belongs app dataset e)) [
      | inr b ↦ rw b (rw (put_one, b) (group_events-Sums since es app dataset))
      | inl b ↦
          let same : key ≡ (app, dataset) =
            (pair_beq_iff str_eq_inst str_eq_inst key (app, dataset)).0 b in
          rw b (
            rw (put_one, b, same)
              (add_event-Sums since e (select (belongs app dataset) es) (get groups (app, dataset))
                (alike app dataset e es b) (group_events-Sums since es app dataset)))
    ]

-- Each group is under the app and the dataset that it names.
Keyed : Dict (Str × Str) SyncAggregate → Type 0
Keyed [] = Unit
Keyed ((k, a) ∷ m) = ((a.app_id ≡ k.0) × (a.dataset_id ≡ k.1)) × Keyed m

put-Keyed :
    (m : Dict (Str × Str) SyncAggregate) (k : Str × Str) (a : SyncAggregate)
    → a.app_id ≡ k.0
    → a.dataset_id ≡ k.1
    → Keyed m
    → Keyed (put m k a)
unfolding put Keyed
put-Keyed [] k a h h' n = ((h, h'), tt)
put-Keyed ((j, b) ∷ m) k a h h' n = elim (Bool-cases (j == k)) [
  | inl e ↦
      let same = (pair_beq_iff str_eq_inst str_eq_inst j k).0 e in
      rw e ((h ∙ ap (λ p. p.0) (sym same), h' ∙ ap (λ p. p.1) (sym same)), n.1)
  | inr e ↦ rw e (n.0, put-Keyed m k a h h' n.1)
]

named :
    (since : ℕ) (e : SyncEvent) (o : Option SyncAggregate)
    → ((add_event since e o).app_id ≡ e.app_id) × ((add_event since e o).dataset_id ≡ e.dataset_id)
unfolding add_event
named since e none = (refl, refl)
named since e (some a) = (refl, refl)

group_events-Keyed :
    (since : ℕ) (es : List SyncEvent)
    → Unique (group_events since es) × Keyed (group_events since es)
unfolding group_events Keyed
group_events-Keyed since [] = (tt, tt)
group_events-Keyed since (e ∷ es) =
    let (unique, keyed) = group_events-Keyed since es in
    let groups = group_events since es in
    let a = add_event since e (get groups (e.app_id, e.dataset_id)) in
    let (app, dataset) = named since e (get groups (e.app_id, e.dataset_id)) in
    (
      put-Unique groups (e.app_id, e.dataset_id) a unique,
      put-Keyed groups (e.app_id, e.dataset_id) a app dataset keyed,
    )

-- The rows of an app's dataset in the list of the aggregates.
abbrev pub is_for : Str → Str → SyncAggregate → Bool
is_for app dataset a = a.app_id == app && a.dataset_id == dataset

abbrev at_most_one : Option SyncAggregate → List SyncAggregate
at_most_one none = []
at_most_one (some a) = a ∷ []

select-groups :
    (m : Dict (Str × Str) SyncAggregate) (app dataset : Str)
    → Unique m
    → Keyed m
    → select (is_for app dataset) (map (λ p. p.1) m) ≡ at_most_one (get m (app, dataset))
unfolding select get Keyed
select-groups [] app dataset u n = refl
select-groups (((x, y), a) ∷ m) app dataset u n =
    let rest = select-groups m app dataset u.1 n.1 in
    let test : is_for app dataset a ≡ (x == app && y == dataset) =
      ap (λ i. i == app && a.dataset_id == dataset) n.0.0
      ∙ ap (λ i. x == app && i == dataset) n.0.1 in
    elim (Bool-cases (x == app && y == dataset)) [
      | inl b ↦
          let same : (x, y) ≡ (app, dataset) =
            (pair_beq_iff str_eq_inst str_eq_inst (x, y) (app, dataset)).0 b in
          let alone : get m (app, dataset) ≡ none = rw (← same) u.0 in
          rw (test, b) (ap (λ l. a ∷ l) (rest ∙ ap at_most_one alone))
      | inr b ↦ rw (test, b) rest
    ]

at_most_one-Permᴰ :
    (l : List SyncAggregate) (o : Option SyncAggregate)
    → Permᴰ l (at_most_one o)
    → l ≡ at_most_one o
at_most_one-Permᴰ l none r = Permᴰ-none l r
at_most_one-Permᴰ l (some a) r = Permᴰ-one l a r

-- What the rows for some events say: none for no events, and else one, which sums them up.
abbrev pub SumsUp : ℕ → List SyncEvent → List SyncAggregate → Type 0
SumsUp since [] rows = rows ≡ []
SumsUp since (e ∷ es) rows =
    (a : SyncAggregate) × (rows ≡ a ∷ [])
    × (a.app_id ≡ e.app_id)
    × (a.dataset_id ≡ e.dataset_id)
    × (a.total_ops ≡ sum_ops (e ∷ es))
    × (a.syncs_24h ≡ length (select (λ x. leb since x.synced_at) (e ∷ es)))
    × (a.last_sync ≡ last_of (e ∷ es))

Sums-SumsUp :
    (since : ℕ) (es : List SyncEvent) (o : Option SyncAggregate) (rows : List SyncAggregate)
    → rows ≡ at_most_one o
    → Sums since es o
    → SumsUp since es rows
Sums-SumsUp since [] o rows q s = q ∙ ap at_most_one s
Sums-SumsUp since (e ∷ es) o rows q (a, is, app, dataset, total, syncs, last) =
    (a, q ∙ ap at_most_one is, app, dataset, total, syncs, last)

-- The aggregates are listed the last synced first. Of the rows of the list there is, for an app and a
-- dataset, none when they have no events, and else exactly one: it has the sum of the operations of
-- their events, the number of those since the given time, and the latest time.
pub list_sync_aggregates-Sums :
    (o : RowOrder) (since : ℕ) (c : Conn EventTable) (aggs : List SyncAggregate) (app dataset : Str)
    → (list_sync_aggregates o since c).0 ≡ ok aggs
    → Falling (λ a. a.last_sync) aggs
      × SumsUp since (select (belongs app dataset) c.tables.rows) (select (is_for app dataset) aggs)
unfolding list_sync_aggregates
list_sync_aggregates-Sums o since c aggs app dataset h =
    let groups = λ (t : EventTable).
      map (λ (p : (Str × Str) × SyncAggregate). p.1) (group_events since t.rows) in
    let (listed, _) =
      stmt_read (λ t. o.arrange SyncAggregate (λ a. a.last_sync) (groups t)) c aggs h in
    let found = get (group_events since c.tables.rows) (app, dataset) in
    let perm : Permᴰ aggs (groups c.tables) =
      rw (sym listed) (o.arrange_perm SyncAggregate (λ a. a.last_sync) (groups c.tables)) in
    let (unique, keyed) = group_events-Keyed since c.tables.rows in
    let own = select-groups (group_events since c.tables.rows) app dataset unique keyed in
    (
      rw (sym listed) (o.arrange_falls SyncAggregate (λ a. a.last_sync) (groups c.tables)),
      Sums-SumsUp since (select (belongs app dataset) c.tables.rows) found
          (select (is_for app dataset) aggs)
          (at_most_one-Permᴰ (select (is_for app dataset) aggs) found
            (rw (← own) (select-Permᴰ (is_for app dataset) perm)))
          (group_events-Sums since c.tables.rows app dataset),
    )
