-- ===== src/Sync/Serving.antt =====
-- core/sync/engine.go over the SQLite backend, on a connection without driver errors: rules for calls
-- that return.
use mobile_db.Prelude.{ℕ, ◌≡◌, refl}
use mobile_db.Prelude.Exec.{ok, Conn}
use mobile_db.Prelude.Exec.Runs.{Quiet, moved, Runs}
use mobile_db.Prelude.Eff.{Eff, return, ignore, try_or, ◌>>=◌}
use mobile_db.Sync.{Site, on_store, on_listeners}

module _ {T A : Type 0} where
  -- From the tables `l`, on any connection without driver errors, the call returns `a` and leaves the
  -- tables at `t`.
  abbrev pub Lands : Eff (Conn T) A → T → A → T → Type 0
  Lands m l a t = (c : Conn T) (k : ℕ) → Quiet c → Runs m (moved c l k) a t

module _ {T A B : Type 0} where
  pub Lands-bind :
      (m : Eff (Conn T) A) (f : A → Eff (Conn T) B) (l : T) (a : A) (t : T) (b : B) (u : T)
      → Lands m l a t
      → Lands (f a) t b u
      → Lands (m >>= f) l b u
  Lands-bind m f l a t b u r s c k q =
      let r' = r c k q in
      let s' = s c r'.calls q in record { calls = s'.calls; result = rw (r'.result, s'.result) }

module _ {T N : Type 0} where
  -- The site with these tables and listeners, after `k` calls.
  abbrev pub serving : Site (Conn T) N → T → ℕ → N → Site (Conn T) N
  serving w l k n = record w { store = moved w.store l k; listeners = n }

  -- The call returns `a`, leaves the tables at `t`, and leaves the clock alone.
  pub record Serves {A : Type 0} (m : Eff (Site (Conn T) N) A) (w : Site (Conn T) N) (a : A) (t : T)
      : Type 0 where
    pub calls : ℕ
    pub heard : N
    pub result : m w ≡ (ok a, serving w t calls heard)

  -- It does so from the tables `l`, on any connection without driver errors.
  abbrev pub Settles : {A : Type 0} → Eff (Site (Conn T) N) A → T → A → T → Type 0
  Settles m l a t =
      (w : Site (Conn T) N) (k : ℕ) (n : N) → Quiet w.store → Serves m (serving w l k n) a t

  module _ {A : Type 0} where
    pub Settles-return : (l : T) (a : A) → Settles (return a) l a l
    Settles-return l a w k n q = record { calls = k; heard = n; result = refl }

    pub Settles-store :
        (m : Eff (Conn T) A) (l : T) (a : A) (t : T) → Lands m l a t → Settles (on_store m) l a t
    Settles-store m l a t r w k n q =
        let r' = r w.store k q in record { calls = r'.calls; heard = n; result = rw r'.result refl }

    pub Settles-ignore :
        (m : Eff (Site (Conn T) N) A) (l : T) (a : A) (t : T)
        → Settles m l a t
        → Settles (ignore m) l tt t
    Settles-ignore m l a t r w k n q =
        let r' = r w k n q in
        record { calls = r'.calls; heard = r'.heard; result = rw r'.result refl }

    pub Settles-try_or :
        (m : Eff (Site (Conn T) N) A) (default a : A) (l t : T)
        → Settles m l a t
        → Settles (try_or default m) l a t
    Settles-try_or m default a l t r w k n q =
        let r' = r w k n q in
        record { calls = r'.calls; heard = r'.heard; result = rw r'.result refl }

    -- Whatever the notifier answers, an ignored notification leaves the tables alone.
    pub Settles-listen : (m : Eff N A) (l : T) → Settles (ignore (on_listeners m)) l tt l
    Settles-listen m l w k n q = record { calls = k; heard = (m n).1; result = refl }

  pub Settles-bind :
      {A B : Type 0} (m : Eff (Site (Conn T) N) A) (f : A → Eff (Site (Conn T) N) B) (l : T) (a : A)
      (t : T) (b : B) (u : T)
      → Settles m l a t
      → Settles (f a) t b u
      → Settles (m >>= f) l b u
  Settles-bind m f l a t b u r s w k n q =
      let r' = r w k n q in
      let s' = s w r'.calls r'.heard q in
      record { calls = s'.calls; heard = s'.heard; result = rw (r'.result, s'.result) }
