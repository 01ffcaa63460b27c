-- ===== src/Admin/Events/Paging.antt =====
-- The pages of the sync events: what they show together, and the numbers of one page.
use mobile_db.Prelude.{
  wrap_int64, ℕ, zero, suc, ◌+◌, ◌-◌, ◌*◌, ◌^◌, ◌≤◌, ◌<◌, if◌then◌else◌, ◌==◌, nat_eq, pair_eq, pos,
  ℤ_eq, inc_int64, Str, str_eq_inst, length, select, ◌≡◌, refl, sym, ap, ◌∙◌, ◌↔◌, true, List, [],
  ◌++◌, arith,
}
use mobile_db.Prelude.Rows.{
  take, drop, length-take, length-select, length-take_le, length-take_all, length-take_full,
  length-drop, take_all, take-take, length-Permᴰ, RowOrder,
}
use mathlib.Core.List.Permᴰ
use mathlib.Core.List.{Permᴰ}
use mobile_db.Prelude.Perms.{DistinctKeys, Permᴰ-DistinctKeys, mem-Permᴰ, Falling-same}
use mathlib.Core.Path.{subst}
use mobile_db.Prelude.Eff.Keeps.{value_of_ok}
use mobile_db.Prelude.Exec.{ok, Conn, stmt}
use mobile_db.Prelude.Exec.Runs.{Quiet}
use mobile_db.Prelude.Eff.{value_or}
use mobile_db.Admin.Events.{
  SyncEvent, EventTable, of_app, page_of, at_least_one, page_offset, ordered_events,
  list_sync_events, sync_page_size, EventsView, add_count, events_view,
}

suc_times : (k size : ℕ) → suc k * size ≡ k * size + size
suc_times k size = omega arith

zero_times : (size : ℕ) → 0 ≡ 0 * size
zero_times size = omega arith

pub wrap_small : (n : ℕ) → n < 2 ^ 63 → wrap_int64 n ≡ pos n
unfolding wrap_int64
wrap_small n h = ground arith

pub page_offset_small : (k size : ℕ) → k * size < 2 ^ 63 → page_offset (suc k) size ≡ pos (k * size)
unfolding page_offset
page_offset_small k size h = let e : suc k - 1 ≡ k = omega arith in rw e (wrap_small (k * size) h)

-- A page's query, when no call fails and the offset fits.
pub list_sync_events_lem :
    (o : RowOrder) (app : Str) (k size : ℕ) (c : Conn EventTable)
    → Quiet c
    → k * size < 2 ^ 63
    → (list_sync_events o app (pos (suc k)) size c).0
      ≡ ok (
        take size (drop (k * size) (ordered_events o app c.tables)),
        length (select (of_app app) c.tables.rows),
      )
unfolding list_sync_events at_least_one page_of stmt
list_sync_events_lem o app k size c q h =
    rw (q c.calls, q (suc c.calls), page_offset_small k size h) refl

-- The events of the first `n` pages, one page after the other. Each page is a query of its own, which
-- may order the events of one date in its own way.
abbrev pub first_pages : (ℕ → RowOrder) → Str → ℕ → ℕ → Conn EventTable → List SyncEvent
first_pages orders app size zero c = []
first_pages orders app size (suc k) c =
    first_pages orders app size k c
    ++ (value_or ([], 0) (list_sync_events (orders k) app (pos (suc k)) size c).0).0

-- No two events of the app have one date.
abbrev pub DistinctDates : Str → EventTable → Type 0
DistinctDates app t = DistinctKeys (λ e. e.synced_at) (select (of_app app) t.rows)

-- Then every order of the dates is one and the same.
ordered_events-same :
    (o o' : RowOrder) (app : Str) (t : EventTable)
    → DistinctDates app t
    → ordered_events o app t ≡ ordered_events o' app t
unfolding ordered_events
ordered_events-same o o' app t d =
    let key = λ (e : SyncEvent). e.synced_at in
    let rows = select (of_app app) t.rows in
    let p = o.arrange_perm SyncEvent key rows in
    let p' = o'.arrange_perm SyncEvent key rows in
    Falling-same key (o.arrange SyncEvent key rows) (o'.arrange SyncEvent key rows)
      (o.arrange_falls SyncEvent key rows) (o'.arrange_falls SyncEvent key rows)
      (Permᴰ-DistinctKeys key p d) (Permᴰ-DistinctKeys key p' d)
      (λ x m. mem-Permᴰ (Permᴰ.trans p (Permᴰ.symm p')) m)
      (λ x m. mem-Permᴰ (Permᴰ.trans p' (Permᴰ.symm p)) m)

first_pages_lem :
    (orders : ℕ → RowOrder) (app : Str) (size n : ℕ) (c : Conn EventTable)
    → Quiet c
    → n * size < 2 ^ 63
    → DistinctDates app c.tables
    → first_pages orders app size n c ≡ take (n * size) (ordered_events (orders 0) app c.tables)
unfolding take
first_pages_lem orders app size zero c q h d =
    ap (λ m. take m (ordered_events (orders 0) app c.tables)) (zero_times size)
first_pages_lem orders app size (suc k) c q h d =
    let l = ordered_events (orders 0) app c.tables in
    let small : k * size < 2 ^ 63 = omega (arith, suc_times k size) in
    rw
      (
        list_sync_events_lem (orders k) app k size c q small,
        first_pages_lem orders app size k c q small d,
        ordered_events-same (orders k) (orders 0) app c.tables d,
      )
      (take-take (k * size) size l ∙ ap (λ m. take m l) omega (arith, suc_times k size))

-- On a connection without driver errors, when no two events of the app have one date, pages that are
-- enough for all events, and whose last offset is in the range of an int, show each event once, and
-- nothing else.
pub first_pages-Permᴰ :
    (orders : ℕ → RowOrder) (app : Str) (size n : ℕ) (c : Conn EventTable)
    → Quiet c
    → n * size < 2 ^ 63
    → length (select (of_app app) c.tables.rows) ≤ n * size
    → DistinctDates app c.tables
    → Permᴰ (first_pages orders app size n c) (select (of_app app) c.tables.rows)
unfolding ordered_events
first_pages-Permᴰ orders app size n c q h enough d =
    let rows = select (of_app app) c.tables.rows in
    let p = (orders 0).arrange_perm SyncEvent (λ e. e.synced_at) rows in
    rw
      (
        first_pages_lem orders app size n c q h d,
        take_all (n * size) (ordered_events (orders 0) app c.tables) (rw (length-Permᴰ p) enough),
      )
      p

add_count_pos : (n k : ℕ) → n + k < 2 ^ 63 → add_count (pos n) k ≡ pos (n + k)
unfolding add_count inc_int64
add_count_pos n zero h = ap pos (omega arith)
add_count_pos n (suc k) h =
    let small : n + k < 2 ^ 63 - 1 = omega (arith, h) in
    rw (add_count_pos n k (omega arith)) (ground (arith, small))

length-page :
    (n : ℕ) (l : List SyncEvent) (size : ℕ)
    → let shown = length (take size (drop n l)) in
      (shown ≤ size)
      × (shown ≤ length l - n)
      × (length l - n ≤ size → shown ≡ length l - n)
      × (size ≤ length l - n → shown ≡ size)
length-page n l size = (
  length-take size (drop n l),
  rw (sym (length-drop n l)) (length-take_le size (drop n l)),
  λ h. length-take_all size (drop n l) (rw (length-drop n l) h) ∙ length-drop n l,
  λ h. length-take_full size (drop n l) (rw (length-drop n l) h),
)

-- The numbers that a view of `shown` events from the offset `start` on has.
abbrev pub Numbered : ℕ → ℕ → EventsView → Type 0
Numbered start total v =
    (v.total ≡ total)
    × (length v.events ≤ sync_page_size)
    × ((v.has_next ≡ true) ↔ (start + sync_page_size < total))
    × (v.from ≡ (if length v.events == 0 then pos 0 else pos (start + 1)))
    × (v.to ≡ pos (start + length v.events))

events_view-page :
    (k : ℕ) (l : List SyncEvent)
    → length l + k * sync_page_size + sync_page_size < 2 ^ 63
    → Numbered
        (k * sync_page_size)
        (length l)
        (events_view (suc k) (take sync_page_size (drop (k * sync_page_size) l), length l))
unfolding events_view inc_int64
events_view-page k l h =
    let shown = take sync_page_size (drop (k * sync_page_size) l) in
    let (most, fits, last, full) = length-page (k * sync_page_size) l sync_page_size in
    let small : k * sync_page_size + length shown < 2 ^ 63 = omega (arith, h, most) in
    rw
      (
        page_offset_small k sync_page_size (omega arith),
        add_count_pos (k * sync_page_size) (length shown) small,
      )
      (refl, most, ground (arith, fits, last, full), ground (arith, small), refl)

-- The numbers under the table of page `k + 1`.
pub events_view-Numbered :
    (o : RowOrder) (k : ℕ) (c : Conn EventTable) (listed : List SyncEvent × ℕ)
    → Quiet c
    → length c.tables.rows + k * sync_page_size + sync_page_size < 2 ^ 63
    → (list_sync_events o [] (pos (suc k)) sync_page_size c).0 ≡ ok listed
    → Numbered
        (k * sync_page_size)
        (length (select (of_app []) c.tables.rows))
        (events_view (suc k) listed)
unfolding ordered_events
events_view-Numbered o k c listed q h e =
    let rows = select (of_app []) c.tables.rows in
    let l = ordered_events o [] c.tables in
    let same : length l ≡ length rows =
      length-Permᴰ (o.arrange_perm SyncEvent (λ e. e.synced_at) rows) in
    let fewer = length-select (of_app []) c.tables.rows in
    let read = list_sync_events_lem o [] k sync_page_size c q (omega (arith, h)) in
    subst (λ r. Numbered (k * sync_page_size) (length rows) (events_view (suc k) r))
      (value_of_ok (sym read ∙ e))
      (subst
        (λ n.
          Numbered (k * sync_page_size) n
            (events_view (suc k) (take sync_page_size (drop (k * sync_page_size) l), n)))
        same (events_view-page k l (rw same (omega (arith, h, fewer)))))
