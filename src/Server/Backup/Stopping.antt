-- ===== src/Server/Backup/Stopping.antt =====
-- What `Stop` does to the loop of `Start`.
use mobile_db.Prelude.{
  ℕ, suc, ◌+◌, ◌≤◌, if◌then◌else◌, Str, ◌≡◌, refl, ◌∙◌, ◌⊎◌, inl, inr, Bool, true, false, Option,
  none, some, List, [], ◌∷◌, arith,
}
use mobile_db.Server.Backup.Loop.{Loop, Event, ticks, stops, backs_up, ends, loop_step, run_loop}

abbrev pub tick_count : List Event → ℕ
tick_count [] = 0
tick_count (ticks ∷ es) = suc (tick_count es)
tick_count (stops ∷ es) = tick_count es
tick_count (backs_up ts ∷ es) = tick_count es
tick_count (ends ∷ es) = tick_count es

abbrev pub backup_count : List Event → ℕ
backup_count [] = 0
backup_count (ticks ∷ es) = backup_count es
backup_count (stops ∷ es) = backup_count es
backup_count (backs_up ts ∷ es) = suc (backup_count es)
backup_count (ends ∷ es) = backup_count es

-- The backups after the loop has taken the signal.
abbrev pub late_count : List Event → ℕ
late_count [] = 0
late_count (ticks ∷ es) = late_count es
late_count (stops ∷ es) = late_count es
late_count (backs_up ts ∷ es) = late_count es
late_count (ends ∷ es) = backup_count es

abbrev waiting : Bool → ℕ
waiting b = if b then 1 else 0

then-some :
    (o : Option Loop) (f : Loop → Option Loop) {l' : Loop}
    → elim o [ none ↦ none | some m ↦ f m ] ≡ some l'
    → (m : Loop) × (o ≡ some m) × (f m ≡ some l')
then-some none f h = absurd cc
then-some (some m) f h = (m, refl, h)

module _ (join : Str → Str → Str) (base : Str → Str) (part : Str → Str) (destination : Str)
    (sources : List Str) where
  abbrev act : Event → Loop → Option Loop
  act = loop_step join base part destination sources

  abbrev acts : List Event → Loop → Option Loop
  acts = run_loop join base part destination sources

  run_loop-step :
      (e : Event) (es : List Event) (l l' : Loop)
      → acts (e ∷ es) l ≡ some l'
      → (m : Loop) × (act e l ≡ some m) × (acts es m ≡ some l')
  unfolding run_loop
  run_loop-step e es l l' h = then-some (act e l) (acts es) h

  loop_step-ticks :
      (l m : Loop)
      → act ticks l ≡ some m
      → (l.ended ≡ false) × (m.ended ≡ false) × (m.stop_waits ≡ l.stop_waits)
  unfolding loop_step
  loop_step-ticks l m h = ground (arith, h)

  loop_step-stops :
      (l m : Loop)
      → act stops l ≡ some m
      → (m.ended ≡ l.ended) × (m.tick_waits ≡ l.tick_waits) × (m.stop_waits ≡ true)
  unfolding loop_step
  loop_step-stops l m h = ground (arith, h)

  loop_step-backs_up :
      (ts : Str) (l m : Loop)
      → act (backs_up ts) l ≡ some m
      → (l.ended ≡ false)
        × (l.tick_waits ≡ true)
        × (m.tick_waits ≡ false)
        × (m.ended ≡ false)
        × (m.stop_waits ≡ l.stop_waits)
  unfolding loop_step
  loop_step-backs_up ts l m h = ground (arith, h)

  loop_step-ends :
      (l m : Loop)
      → act ends l ≡ some m
      → (l.ended ≡ false) × (m.ended ≡ true) × (m.tick_waits ≡ l.tick_waits)
  unfolding loop_step
  loop_step-ends l m h = ground (arith, h)

  -- A loop that has ended takes no tick and stays ended.
  ended-backups :
      (es : List Event) (l l' : Loop)
      → l.ended ≡ true
      → acts es l ≡ some l'
      → (backup_count es ≡ 0) × (l'.ended ≡ true)
  unfolding run_loop
  ended-backups [] l l' d h = ground (arith, h, d)
  ended-backups (ticks ∷ es) l l' d h =
      let (m, s, h') = run_loop-step ticks es l l' h in
      absurd (ground (arith, d, loop_step-ticks l m s))
  ended-backups (stops ∷ es) l l' d h =
      let (m, s, h') = run_loop-step stops es l l' h in
      ended-backups es m l' ((loop_step-stops l m s).0 ∙ d) h'
  ended-backups (backs_up ts ∷ es) l l' d h =
      let (m, s, h') = run_loop-step (backs_up ts) es l l' h in
      absurd (ground (arith, d, loop_step-backs_up ts l m s))
  ended-backups (ends ∷ es) l l' d h =
      let (m, s, h') = run_loop-step ends es l l' h in
      absurd (ground (arith, d, loop_step-ends l m s))

  -- Each backup takes a tick.
  backups-ticks :
      (es : List Event) (l l' : Loop)
      → acts es l ≡ some l'
      → backup_count es ≤ tick_count es + waiting l.tick_waits
  unfolding run_loop
  backups-ticks [] l l' h = omega arith
  backups-ticks (ticks ∷ es) l l' h =
      let (m, s, h') = run_loop-step ticks es l l' h in ground (arith, backups-ticks es m l' h')
  backups-ticks (stops ∷ es) l l' h =
      let (m, s, h') = run_loop-step stops es l l' h in
      ground (arith, backups-ticks es m l' h', loop_step-stops l m s)
  backups-ticks (backs_up ts ∷ es) l l' h =
      let (m, s, h') = run_loop-step (backs_up ts) es l l' h in
      ground (arith, backups-ticks es m l' h', loop_step-backs_up ts l m s)
  backups-ticks (ends ∷ es) l l' h =
      let (m, s, h') = run_loop-step ends es l l' h in
      ground (arith, backups-ticks es m l' h', loop_step-ends l m s)

  late-none : (es : List Event) (l l' : Loop) → acts es l ≡ some l' → late_count es ≡ 0
  unfolding run_loop
  late-none [] l l' h = refl
  late-none (ticks ∷ es) l l' h =
      let (m, s, h') = run_loop-step ticks es l l' h in late-none es m l' h'
  late-none (stops ∷ es) l l' h =
      let (m, s, h') = run_loop-step stops es l l' h in late-none es m l' h'
  late-none (backs_up ts ∷ es) l l' h =
      let (m, s, h') = run_loop-step (backs_up ts) es l l' h in late-none es m l' h'
  late-none (ends ∷ es) l l' h =
      let (m, s, h') = run_loop-step ends es l l' h in
      (ended-backups es m l' (loop_step-ends l m s).1 h').0

  -- The signal waits until the loop has ended.
  signal_stays :
      (es : List Event) (l l' : Loop)
      → l.stop_waits ≡ true
      → acts es l ≡ some l'
      → (l'.ended ≡ true) ⊎ ((l'.ended ≡ false) × (l'.stop_waits ≡ true))
  unfolding run_loop
  signal_stays [] l l' w h = ground (arith, h, w)
  signal_stays (ticks ∷ es) l l' w h =
      let (m, s, h') = run_loop-step ticks es l l' h in
      signal_stays es m l' ((loop_step-ticks l m s).2 ∙ w) h'
  signal_stays (stops ∷ es) l l' w h =
      let (m, s, h') = run_loop-step stops es l l' h in
      signal_stays es m l' (loop_step-stops l m s).2 h'
  signal_stays (backs_up ts ∷ es) l l' w h =
      let (m, s, h') = run_loop-step (backs_up ts) es l l' h in
      signal_stays es m l' (ground (arith, w, loop_step-backs_up ts l m s)) h'
  signal_stays (ends ∷ es) l l' w h =
      let (m, s, h') = run_loop-step ends es l l' h in
      inl (ended-backups es m l' (loop_step-ends l m s).1 h').1

  ends_now :
      (l : Loop)
      → l.ended ≡ false
      → l.stop_waits ≡ true
      → (m : Loop) × (act ends l ≡ some m) × (m.ended ≡ true)
  unfolding loop_step
  ends_now l d w = (record l { stop_waits = false; ended = true }, ground (arith, d, w), refl)

  -- Whatever happens to the loop of `Start` after a `Stop`: it takes at most one tick more than come,
  -- none once it has taken the signal; and it has ended or the signal waits and the loop can end.
  pub stop_ends :
      (es : List Event) (l l' : Loop)
      → l.stop_waits ≡ true
      → run_loop join base part destination sources es l ≡ some l'
      → (backup_count es ≤ suc (tick_count es))
        × (late_count es ≡ 0)
        × ((l'.ended ≡ true)
            ⊎ ((m : Loop) × (loop_step join base part destination sources ends l' ≡ some m)
                × (m.ended ≡ true)))
  stop_ends es l l' w h =
      let counted = backups-ticks es l l' h in
      (
        ground (arith, counted),
        late-none es l l' h,
        elim (signal_stays es l l' w h) [ inl d ↦ inl d | inr (d, w') ↦ inr (ends_now l' d w') ],
      )
