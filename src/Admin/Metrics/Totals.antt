-- ===== src/Admin/Metrics/Totals.antt =====
-- The totals of an app, over the samples of the families.
use mobile_db.Prelude.{
  if◌then◌else◌, Bool-cases, Option-cases, ◌==◌, nat_eq, pair_eq, ℤ, pos, ℤ_eq, add_int64, Str,
  str_eq, str_eq_iff, str_eq_inst, ◌≡◌, refl, ap, ◌∙◌, ◌≢◌, inl, inr, Bool, true, false, ◌&&◌, ◌||◌,
  not, Option, none, some, List, [], ◌∷◌, arith,
}
use mobile_db.Prelude.Dict.{Dict, get, get-put, Unique, put-Unique}
use mobile_db.Admin.Metrics.{
  Floats, Metric, MetricFamily, app_label, sync_requests, db_size, value_at, bump, AppTotals,
  add_sample, add_syncs, add_bytes, number, add_samples, app_totals,
}

-- The total of an app after one more value.
abbrev pub plus : Option ℤ → ℤ → Option ℤ
plus none x = some (add_int64 (pos 0) x)
plus (some n) x = some (add_int64 n x)

module _ {F : Type 0} (floats : Floats F) where
  abbrev pub picked : Option F → Option ℤ → Option ℤ
  picked none o = o
  picked (some x) o = plus o (floats.truncate x)

module _ {F : Type 0} (floats : Floats F) (pick : Metric F → Option F) (app : Str) where
  -- The sum of an app over samples: of the picked values of those that have its label.
  abbrev pub tally : List (Metric F) → Option ℤ → Option ℤ
  tally [] o = o
  tally (m ∷ ms) o = tally ms (if app_label [] m.labels == app then picked floats (pick m) o else o)

  -- The same over the families of a name.
  abbrev pub tally_named : Str → List (MetricFamily F) → Option ℤ → Option ℤ
  tally_named name [] o = o
  tally_named name (mf ∷ mfs) o =
      tally_named name mfs (if mf.name == name then tally mf.metrics o else o)

bumped : (m : Dict Str ℤ) (k : Str) (x : ℤ) → some (add_int64 (value_at m k) x) ≡ plus (get m k) x
unfolding value_at
bumped m k x = elim (Option-cases (get m k)) [
  | inl e ↦ rw (e, number) refl
  | inr (n, e) ↦ rw (e, number) refl
]

get-bump :
    (m : Dict Str ℤ) (j app : Str) (x : ℤ)
    → get (bump m j x) app ≡ (if j == app then plus (get m app) x else get m app)
unfolding bump
get-bump m j app x = get-put m j (add_int64 (value_at m j) x) app ∙ elim (Bool-cases (j == app)) [
  | inr e ↦ rw e refl
  | inl e ↦ rw e (bumped m j x ∙ ap (λ k. plus (get m k) x) ((str_eq_iff j app).0 e))
]

requests≢db_size : (name : Str) → (name == sync_requests) ≡ true → (name == db_size) ≡ false
unfolding str_eq
requests≢db_size name h = rw ((str_eq_iff name sync_requests).0 h) refl

module _ {F : Type 0} (floats : Floats F) (app : Str) where
  add_syncs-get :
      (label : Str) (o : Option F) (t : AppTotals)
      → let t' = add_syncs floats label o t in
        (get t'.syncs app
          ≡ (if label == app then picked floats o (get t.syncs app) else get t.syncs app))
        × (get t'.db_bytes app ≡ get t.db_bytes app)
  unfolding add_syncs
  add_syncs-get label none t = (ground arith, refl)
  add_syncs-get label (some c) t = (get-bump t.syncs label app (floats.truncate c), refl)

  add_bytes-get :
      (label : Str) (o : Option F) (t : AppTotals)
      → let t' = add_bytes floats label o t in
        (get t'.syncs app ≡ get t.syncs app)
        × (get t'.db_bytes app
            ≡ (if label == app then picked floats o (get t.db_bytes app) else get t.db_bytes app))
  unfolding add_bytes
  add_bytes-get label none t = (refl, ground arith)
  add_bytes-get label (some c) t = (refl, get-bump t.db_bytes label app (floats.truncate c))

  add_sample-get :
      (name : Str) (m : Metric F) (t : AppTotals)
      → app ≢ []
      → let t' = add_sample floats name m t in
        let mine = app_label [] m.labels == app in
        (get t'.syncs app ≡ (
          if name == sync_requests && mine
          then picked floats m.counter (get t.syncs app)
          else get t.syncs app))
        × (get t'.db_bytes app ≡ (
            if not (name == sync_requests) && mine
            then picked floats m.gauge (get t.db_bytes app)
            else get t.db_bytes app))
  unfolding add_sample
  add_sample-get name m t h =
      let label = app_label [] m.labels in
      elim (Bool-cases (label == [])) [
        | inl e ↦
            let other : (label == app) ≡ false =
              ground (arith, str_eq_iff label [], str_eq_iff label app, e, h) in
            rw (e, other) (ground arith)
        | inr e ↦ elim (Bool-cases (name == sync_requests)) [
          | inl n ↦ rw (e, n) (add_syncs-get label m.counter t)
          | inr n ↦ rw (e, n) (add_bytes-get label m.gauge t)
        ]
      ]

  add_samples-get :
      (name : Str) (ms : List (Metric F)) (t : AppTotals)
      → app ≢ []
      → let t' = add_samples floats name ms t in
        (get t'.syncs app ≡ (
          if name == sync_requests
          then tally floats (λ m. m.counter) app ms (get t.syncs app)
          else get t.syncs app))
        × (get t'.db_bytes app ≡ (
            if name == sync_requests
            then get t.db_bytes app
            else tally floats (λ m. m.gauge) app ms (get t.db_bytes app)))
  unfolding add_samples
  add_samples-get name [] t h = ground arith
  add_samples-get name (m ∷ ms) t h =
      let (syncs, bytes) = add_sample-get name m t h in
      let (syncs', bytes') = add_samples-get name ms (add_sample floats name m t) h in
      elim (Bool-cases (name == sync_requests)) [
        | inl n ↦ rw (syncs', bytes', syncs, bytes, n) (refl, refl)
        | inr n ↦ rw (syncs', bytes', syncs, bytes, n) (refl, refl)
      ]

  family-get :
      (mf : MetricFamily F) (t : AppTotals)
      → app ≢ []
      → let t' =
          if mf.name == sync_requests || mf.name == db_size
          then add_samples floats mf.name mf.metrics t
          else t in
        (get t'.syncs app ≡ (
          if mf.name == sync_requests
          then tally floats (λ m. m.counter) app mf.metrics (get t.syncs app)
          else get t.syncs app))
        × (get t'.db_bytes app ≡ (
            if mf.name == db_size
            then tally floats (λ m. m.gauge) app mf.metrics (get t.db_bytes app)
            else get t.db_bytes app))
  family-get mf t h =
      let (syncs, bytes) = add_samples-get mf.name mf.metrics t h in
      elim (Bool-cases (mf.name == sync_requests)) [
        | inl n ↦
            let n' : (mf.name == db_size) ≡ false = requests≢db_size mf.name n in
            rw (n, n', syncs, bytes, n) (refl, refl)
        | inr n ↦ elim (Bool-cases (mf.name == db_size)) [
          | inl d ↦ rw (n, d, syncs, bytes, n) (refl, refl)
          | inr d ↦ rw (n, d) (refl, refl)
        ]
      ]

  pub app_totals-get :
      (mfs : List (MetricFamily F)) (t : AppTotals)
      → app ≢ []
      → let t' = app_totals floats mfs t in
        (get t'.syncs app
          ≡ tally_named floats (λ m. m.counter) app sync_requests mfs (get t.syncs app))
        × (get t'.db_bytes app
            ≡ tally_named floats (λ m. m.gauge) app db_size mfs (get t.db_bytes app))
  unfolding app_totals
  app_totals-get [] t h = (refl, refl)
  app_totals-get (mf ∷ mfs) t h =
      let t' =
        if mf.name == sync_requests || mf.name == db_size
        then add_samples floats mf.name mf.metrics t
        else t in
      let (syncs, bytes) = family-get mf t h in
      let (syncs', bytes') = app_totals-get mfs t' h in
      rw (syncs', bytes', syncs, bytes) (refl, refl)

abbrev pub IsUnique : AppTotals → Type 0
IsUnique t = Unique t.syncs × Unique t.db_bytes

if-IsUnique :
    (b : Bool) (t t' : AppTotals) → IsUnique t → IsUnique t' → IsUnique (if b then t else t')
if-IsUnique true t t' u u' = u
if-IsUnique false t t' u u' = u'

module _ {F : Type 0} (floats : Floats F) where
  add_syncs-IsUnique :
      (label : Str) (o : Option F) (t : AppTotals)
      → IsUnique t
      → IsUnique (add_syncs floats label o t)
  unfolding add_syncs bump
  add_syncs-IsUnique label none t u = u
  add_syncs-IsUnique label (some x) t u =
      (put-Unique t.syncs label (add_int64 (value_at t.syncs label) (floats.truncate x)) u.0, u.1)

  add_bytes-IsUnique :
      (label : Str) (o : Option F) (t : AppTotals)
      → IsUnique t
      → IsUnique (add_bytes floats label o t)
  unfolding add_bytes bump
  add_bytes-IsUnique label none t u = u
  add_bytes-IsUnique label (some x) t u = (
    u.0,
    put-Unique t.db_bytes label (add_int64 (value_at t.db_bytes label) (floats.truncate x)) u.1,
  )

  add_samples-IsUnique :
      (name : Str) (ms : List (Metric F)) (t : AppTotals)
      → IsUnique t
      → IsUnique (add_samples floats name ms t)
  unfolding add_samples add_sample
  add_samples-IsUnique name [] t u = u
  add_samples-IsUnique name (m ∷ ms) t u =
      let label = app_label [] m.labels in
      add_samples-IsUnique name ms (add_sample floats name m t) (
        if-IsUnique (label == []) t _ u (
          if-IsUnique (name == sync_requests) _ _ (add_syncs-IsUnique label m.counter t u)
            (add_bytes-IsUnique label m.gauge t u)))

  pub app_totals-IsUnique :
      (mfs : List (MetricFamily F)) (t : AppTotals)
      → IsUnique t
      → IsUnique (app_totals floats mfs t)
  unfolding app_totals
  app_totals-IsUnique [] t u = u
  app_totals-IsUnique (mf ∷ mfs) t u = app_totals-IsUnique mfs _ (
      if-IsUnique (mf.name == sync_requests || mf.name == db_size) _ _
        (add_samples-IsUnique mf.name mf.metrics t u) u)
