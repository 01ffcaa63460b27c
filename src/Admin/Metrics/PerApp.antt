-- ===== src/Admin/Metrics/PerApp.antt =====
-- The rows of the metrics page, one for each app that has samples.
use mobile_db.Prelude.{
  Bool-cases, Option-cases, ◌==◌, nat_eq, pair_eq, ℤ, pos, ℤ_eq, Str, str_eq_iff, str_eq_inst,
  select, ◌≡◌, refl, sym, ap, ◌∙◌, ◌≢◌, inl, inr, Bool, Option, none, some, List, [], ◌∷◌, ◌++◌,
  arith,
}
use mobile_db.Prelude.Dict.{Dict, get, Unique, get-Permᴰ, MapOrder}
use mobile_db.Admin.Metrics.{
  Floats, MetricFamily, AppMetricRow, sync_requests, db_size, value_at, AppTotals, number,
  app_totals, sync_rows, unless_seen, other_rows, rows_of, per_app_rows,
}
use mobile_db.Admin.Metrics.Totals.{tally_named, app_totals-get, IsUnique, app_totals-IsUnique}

-- The rows of one app, from its two totals.
abbrev pub rows_for : Str → Option ℤ → Option ℤ → List AppMetricRow
rows_for app none none = []
rows_for app none (some d) = record { app_id = app; syncs = pos 0; db_bytes = d } ∷ []
rows_for app (some n) none = record { app_id = app; syncs = n; db_bytes = pos 0 } ∷ []
rows_for app (some n) (some d) = record { app_id = app; syncs = n; db_bytes = d } ∷ []

abbrev pub is_app : Str → AppMetricRow → Bool
is_app app row = row.app_id == app

select-append :
    {A : Type 0} (p : A → Bool) (xs ys : List A) → select p (xs ++ ys) ≡ select p xs ++ select p ys
unfolding select
select-append p [] ys = refl
select-append p (x ∷ xs) ys = ground (arith, select-append p xs ys)

-- The row that each loop adds for an app.
abbrev sync_row : Str → ℤ → Option ℤ → List AppMetricRow
sync_row app d none = []
sync_row app d (some n) = record { app_id = app; syncs = n; db_bytes = d } ∷ []

abbrev other_row : Str → Option ℤ → Option ℤ → List AppMetricRow
other_row app (some k) o = []
other_row app none none = []
other_row app none (some d) = record { app_id = app; syncs = pos 0; db_bytes = d } ∷ []

select-sync_rows :
    (db : Dict Str ℤ) (es : List (Str × ℤ)) (app : Str)
    → Unique es
    → select (is_app app) (sync_rows db es) ≡ sync_row app (value_at db app) (get es app)
unfolding select sync_rows get
select-sync_rows db [] app u = refl
select-sync_rows db ((j, n) ∷ es) app u = elim (Bool-cases (j == app)) [
  | inr e ↦ rw e (select-sync_rows db es app u.1)
  | inl e ↦
      let same = (str_eq_iff j app).0 e in
      let gone : get es app ≡ none = ap (get es) (sym same) ∙ u.0 in
      rw (e, select-sync_rows db es app u.1, gone, same) refl
]

select-other_rows :
    (syncs : Dict Str ℤ) (es : List (Str × ℤ)) (app : Str)
    → Unique es
    → select (is_app app) (other_rows syncs es) ≡ other_row app (get syncs app) (get es app)
unfolding select other_rows get
select-other_rows syncs [] app u = elim (Option-cases (get syncs app)) [
  | inl e ↦ rw e refl
  | inr (k, e) ↦ rw e refl
]
select-other_rows syncs ((j, n) ∷ es) app u =
    let rest = select-other_rows syncs es app u.1 in
    elim (Bool-cases (j == app)) [
      | inl e ↦
          let same = (str_eq_iff j app).0 e in
          let gone : get es app ≡ none = ap (get es) (sym same) ∙ u.0 in
          elim (Option-cases (get syncs app)) [
            | inl f ↦
                let f' = ap (get syncs) same ∙ f in
                rw (e, f', unless_seen) (rw (e, rest, f, gone, same) refl)
            | inr (k, f) ↦
                let f' = ap (get syncs) same ∙ f in rw (e, f', unless_seen) (rw (rest, f) refl)
          ]
      | inr e ↦ elim (Option-cases (get syncs j)) [
        | inl f ↦ rw (e, f, unless_seen) (rw e rest)
        | inr (k, f) ↦ rw (e, f, unless_seen) rest
      ]
    ]

without :
    (app : Str) (n : Option ℤ)
    → sync_row app (pos 0) n ++ other_row app n none ≡ rows_for app n none
without app none = refl
without app (some n) = refl

with_bytes :
    (app : Str) (n : Option ℤ) (d : ℤ)
    → sync_row app d n ++ other_row app n (some d) ≡ rows_for app n (some d)
with_bytes app none d = refl
with_bytes app (some n) d = refl

joined :
    (app : Str) (db : Dict Str ℤ) (n : Option ℤ)
    → sync_row app (value_at db app) n ++ other_row app n (get db app) ≡ rows_for app n (get db app)
unfolding value_at
joined app db n = elim (Option-cases (get db app)) [
  | inl e ↦ rw (e, number) (without app n)
  | inr (d, e) ↦ rw (e, number) (with_bytes app n d)
]

select-rows_of :
    (o : MapOrder) (t : AppTotals) (app : Str)
    → IsUnique t
    → select (is_app app) (rows_of o t) ≡ rows_for app (get t.syncs app) (get t.db_bytes app)
unfolding rows_of
select-rows_of o t app u =
    let (us, same) = get-Permᴰ (o.visit_perm (Str × ℤ) t.syncs) u.0 in
    let (ub, same') = get-Permᴰ (o.visit_perm (Str × ℤ) t.db_bytes) u.1 in
    rw
      (
        select-append (is_app app) (sync_rows t.db_bytes (o.visit (Str × ℤ) t.syncs))
            (other_rows t.syncs (o.visit (Str × ℤ) t.db_bytes)),
        select-sync_rows t.db_bytes (o.visit (Str × ℤ) t.syncs) app us,
        select-other_rows t.syncs (o.visit (Str × ℤ) t.db_bytes) app ub,
        same app,
        same' app,
      )
      (joined app t.db_bytes (get t.syncs app))

module _ {F : Type 0} (floats : Floats F) (o : MapOrder) where
  -- The page has one row for each app that is named by a sample, with the sums of its samples, and no
  -- other row for that app; the order of the maps plays no part.
  pub per_app_rows-tally :
      (mfs : List (MetricFamily F)) (app : Str)
      → app ≢ []
      → select (is_app app) (per_app_rows floats o mfs)
        ≡ rows_for app
            (tally_named floats (λ m. m.counter) app sync_requests mfs none)
            (tally_named floats (λ m. m.gauge) app db_size mfs none)
  unfolding per_app_rows get
  per_app_rows-tally mfs app h =
      let empty : AppTotals = record { syncs = []; db_bytes = [] } in
      let (syncs, bytes) = app_totals-get floats app mfs empty h in
      select-rows_of o (app_totals floats mfs empty) app
        (app_totals-IsUnique floats mfs empty (tt, tt))
      ∙ rw (syncs, bytes) refl
