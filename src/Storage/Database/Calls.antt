-- ===== src/Storage/Database/Calls.antt =====
-- Every sequence of openings and closings of a process: the registration of the driver, and the numbers
-- of the databases.
use mobile_db.Prelude.{
  ℕ, suc, ◌≤◌, if◌then◌else◌, Bool-cases, Option-cases, ◌==◌, nat_eq, Str, str_eq_inst, str_eq_iff,
  ◌≡◌, refl, sym, ap, ◌∙◌, ◌⊎◌, inl, inr, Bool, true, false, not, none, some, List, [], ◌∷◌, ◌++◌,
  arith,
}
use mobile_db.Prelude.Dict.{Dict, get}
use mobile_db.Prelude.Exec.{Result, ok, err, Conn}
use mobile_db.Server.Device.Statuses.{Result-cases}
use mobile_db.Storage.Database.{
  Host, MetaDb, close_db, or_close, open_handle, apply_meta_ddl, new_backend, open_meta, close_meta,
}
use mobile_db.Storage.Database.Opening.{Fresh, Opened, close_db-Removes}
use mobile_db.Storage.Database.Backends.{new_backend_all_or_nothing}
use mobile_db.Storage.Database.Drivers.{
  Registered, close_db-KeepsRegistered, new_backend-KeepsRegistered, open_meta-new_backend,
  close_db-Fresh,
}

-- The calls of the package that open and close databases.
pub data Call : Type 0 where
  opens opens_meta : (path ext_path : Str) → Call
  closes : (n : ℕ) → Call
  closes_meta : (m : MetaDb) → Call

unfoldable pub run_call : Call → Conn Host → Conn Host
run_call (opens path ext_path) c = (new_backend path ext_path c).1
run_call (opens_meta path ext_path) c = (open_meta path ext_path c).1
run_call (closes n) c = (close_db n c).1
run_call (closes_meta m) c = (close_meta m c).1

unfoldable pub run_calls : List Call → Conn Host → Conn Host
run_calls [] c = c
run_calls (x ∷ xs) c = run_calls xs (run_call x c)

-- The numbers of the databases that a call has given out.
unfoldable pub number_of : Result ℕ → List ℕ
number_of (err e) = []
number_of (ok n) = n ∷ []

unfoldable pub meta_number : Result MetaDb → List ℕ
meta_number (err e) = []
meta_number (ok m) = m.db ∷ []

unfoldable pub given_by : Call → Conn Host → List ℕ
unfolding number_of meta_number
given_by (opens path ext_path) c = number_of (new_backend path ext_path c).0
given_by (opens_meta path ext_path) c = meta_number (open_meta path ext_path c).0
given_by (closes n) c = []
given_by (closes_meta m) c = []

-- The numbers that are given out, in order.
unfoldable pub numbers : List Call → Conn Host → List ℕ
unfolding given_by
numbers [] c = []
numbers (x ∷ xs) c = let rest = numbers xs (run_call x c) in given_by x c ++ rest

-- Each number is at least `k` and larger than those before it.
abbrev pub Rising : ℕ → List ℕ → Type 0
Rising k [] = Unit
Rising k (n ∷ ns) = (k ≤ n) × Rising (suc n) ns

Rising-below : (j k : ℕ) (ns : List ℕ) → j ≤ k → Rising k ns → Rising j ns
Rising-below j k [] le r = tt
Rising-below j k (n ∷ ns) le (least, r) = (omega arith, r)

-- The number that a result gives out is new, and the later ones are larger.
number_of-Rising :
    (path : Str) (h : Host) (r : Result ℕ) (h' : Host) (ns : List ℕ)
    → Opened path h r h'
    → Rising h'.made ns
    → Rising h.made (number_of r ++ ns)
unfolding number_of
number_of-Rising path h (err e) h' ns (le, o) r = Rising-below h.made h'.made ns le r
number_of-Rising path h (ok n) h' ns (s, le, free, o) r = (le, Rising-below (suc n) h'.made ns s r)

meta_number-new_backend :
    (path ext_path : Str) (c : Conn Host)
    → meta_number (open_meta path ext_path c).0 ≡ number_of (new_backend path ext_path c).0
unfolding open_meta new_backend meta_number number_of
meta_number-new_backend path ext_path c =
    let c1 = (open_handle path ext_path c).1 in
    elim (Result-cases (open_handle path ext_path c).0) [
      | inl (e, q) ↦ rw q refl
      | inr (n, q) ↦
          elim (Result-cases (or_close n (apply_meta_ddl n c1).0 (apply_meta_ddl n c1).1).0) [
            | inl (e, q') ↦ rw (q, q') refl
            | inr (m, q') ↦ rw (q, q') refl
          ]
    ]

close_meta-made : (m : MetaDb) (c : Conn Host) → (close_meta m c).1.tables.made ≡ c.tables.made
unfolding close_meta
close_meta-made m c = elim (Bool-cases m.owner) [
  | inl e ↦ rw e (close_db-Removes m.db c).1
  | inr e ↦ rw e refl
]

new_backend-Rising :
    (path ext_path : Str) (c : Conn Host) (ns : List ℕ)
    → Fresh c.tables
    → Rising (new_backend path ext_path c).1.tables.made ns
    → Rising c.tables.made (number_of (new_backend path ext_path c).0 ++ ns)
new_backend-Rising path ext_path c ns f r =
    number_of-Rising path c.tables (new_backend path ext_path c).0
      (new_backend path ext_path c).1.tables ns (new_backend_all_or_nothing path ext_path c f).0 r

given_by-Rising :
    (x : Call) (c : Conn Host) (ns : List ℕ)
    → Fresh c.tables
    → Rising (run_call x c).tables.made ns
    → Rising c.tables.made (given_by x c ++ ns)
unfolding given_by run_call
given_by-Rising (opens path ext_path) c ns f r = new_backend-Rising path ext_path c ns f r
given_by-Rising (opens_meta path ext_path) c ns f r =
    rw (meta_number-new_backend path ext_path c)
      (new_backend-Rising path ext_path c ns f (rw (open_meta-new_backend path ext_path c) at r))
given_by-Rising (closes n) c ns f r = rw (← (close_db-Removes n c).1) r
given_by-Rising (closes_meta m) c ns f r = rw (← close_meta-made m c) r

close_meta-Valid :
    (m : MetaDb) (c : Conn Host)
    → Registered c.tables × Fresh c.tables
    → Registered (close_meta m c).1.tables × Fresh (close_meta m c).1.tables
unfolding close_meta
close_meta-Valid m c (r, f) = elim (Bool-cases m.owner) [
  | inl e ↦ rw e (close_db-KeepsRegistered m.db c r, close_db-Fresh m.db c f)
  | inr e ↦ rw e (r, f)
]

new_backend-Valid :
    (path ext_path : Str) (c : Conn Host)
    → Registered c.tables × Fresh c.tables
    → Registered (new_backend path ext_path c).1.tables
      × Fresh (new_backend path ext_path c).1.tables
new_backend-Valid path ext_path c (r, f) = (
  new_backend-KeepsRegistered path ext_path c r,
  (new_backend_all_or_nothing path ext_path c f).2,
)

run_call-Valid :
    (x : Call) (c : Conn Host)
    → Registered c.tables × Fresh c.tables
    → Registered (run_call x c).tables × Fresh (run_call x c).tables
unfolding run_call
run_call-Valid (opens path ext_path) c v = new_backend-Valid path ext_path c v
run_call-Valid (opens_meta path ext_path) c v =
    rw (open_meta-new_backend path ext_path c) (new_backend-Valid path ext_path c v)
run_call-Valid (closes n) c (r, f) = (close_db-KeepsRegistered n c r, close_db-Fresh n c f)
run_call-Valid (closes_meta m) c v = close_meta-Valid m c v

run_calls-Valid :
    (xs : List Call) (c : Conn Host)
    → Registered c.tables × Fresh c.tables
    → Registered (run_calls xs c).tables × Fresh (run_calls xs c).tables
unfolding run_calls
run_calls-Valid [] c v = v
run_calls-Valid (x ∷ xs) c v = run_calls-Valid xs (run_call x c) (run_call-Valid x c v)

numbers-Rising :
    (xs : List Call) (c : Conn Host)
    → Registered c.tables × Fresh c.tables
    → Rising c.tables.made (numbers xs c)
unfolding numbers
numbers-Rising [] c v = tt
numbers-Rising (x ∷ xs) c v =
    given_by-Rising x c (numbers xs (run_call x c)) v.1
      (numbers-Rising xs (run_call x c) (run_call-Valid x c v))

-- A process before its first call; the files are as an earlier process left them.
abbrev pub new_process : (ℕ → Bool) → Dict Str (List Str) → Conn Host
new_process fails files =
    let no_driver : Host = record {
      driver_path = [];
      registered = 0;
      opened = [];
      made = 0;
      schemas = files;
    } in
    record { tables = no_driver; calls = 0; fails = fails }

Registered-count : (h : Host) → Registered h → h.registered ≡ (if h.driver_path == [] then 0 else 1)
unfolding mobile_db.Prelude.str_eq
Registered-count h (inl (n, p)) = rw p n
Registered-count h (inr (n, p)) = rw p n

-- After any sequence of openings and closings of a process, whichever calls fail, the driver has
-- been registered at most once, and once exactly when the path of its library is set; and each opening
-- that succeeded has got a database with a larger number than all before it.
pub registers_once :
    (fails : ℕ → Bool) (files : Dict Str (List Str)) (cs : List Call)
    → ((run_calls cs (new_process fails files)).tables.registered
        ≡ (if (run_calls cs (new_process fails files)).tables.driver_path == [] then 0 else 1))
      × ((run_calls cs (new_process fails files)).tables.registered ≤ 1)
      × Rising 0 (numbers cs (new_process fails files))
unfolding get
registers_once fails files cs =
    let c = new_process fails files in
    let v : Registered c.tables × Fresh c.tables = (inl (refl, refl), λ k le. refl) in
    let (r, f) = run_calls-Valid cs c v in
    let count = Registered-count (run_calls cs c).tables r in
    (count, ground (arith, count), numbers-Rising cs c v)
