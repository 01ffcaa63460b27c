-- ===== src/Server/Backup/Copies.antt =====
-- What a run of the backup has copied, and what it leaves alone.
use mobile_db.Prelude.{
  ◌==◌, nat_eq, pair_eq, ℤ_eq, Str, str_eq_inst, All, ◌≡◌, refl, ap, ◌∙◌, false, List, [], ◌∷◌,
}
use mobile_db.Prelude.Exec.{ok, Conn, ◌>>◌}
use mobile_db.Server.Backup.{
  Files, mkdir_all, open_source, open_target, copy_bytes, copy_file, target, backup_file, run_once,
}
use mobile_db.Server.Backup.OneFile.{
  at, LeavesFile, then-LeavesFile, mkdir_all-LeavesFile, open_source-LeavesFile,
  open_target-LeavesFile, copy_bytes-LeavesFile, then_ok, copy_file_lem,
}

module _ (join : Str → Str → Str) (base : Str → Str) (part : Str → Str) (destination : Str) where
  abbrev copy_of : Str → Str → Str
  copy_of = target join base destination

  backup_file-LeavesFile :
      (ts path src : Str)
      → (copy_of ts src == path) ≡ false
      → LeavesFile path (backup_file join base part destination ts src)
  unfolding backup_file copy_file
  backup_file-LeavesFile ts path src h =
      let dst = copy_of ts src in
      let made = open_target dst in
      let copied = copy_bytes part src dst in
      then-LeavesFile path (mkdir_all destination) (open_source src >> (made >> copied))
        (mkdir_all-LeavesFile path destination)
        (then-LeavesFile path (open_source src) (made >> copied) (open_source-LeavesFile path src) (
          then-LeavesFile path made copied (open_target-LeavesFile path dst h)
            (copy_bytes-LeavesFile part path src dst h)))

  run_once-LeavesFile :
      (ts path : Str) (sources : List Str)
      → All (λ src. (copy_of ts src == path) ≡ false) sources
      → LeavesFile path (run_once join base part destination ts sources)
  unfolding run_once
  run_once-LeavesFile ts path [] h = λ c. refl
  run_once-LeavesFile ts path (src ∷ sources) (h, hs) =
      then-LeavesFile path (backup_file join base part destination ts src)
        (run_once join base part destination ts sources) (backup_file-LeavesFile ts path src h)
        (run_once-LeavesFile ts path sources hs)

  backup_file_lem :
      (ts src : Str) (c : Conn Files)
      → (copy_of ts src == src) ≡ false
      → (backup_file join base part destination ts src c).0 ≡ ok tt
      → at (copy_of ts src) (backup_file join base part destination ts src c).1 ≡ at src c
  unfolding backup_file
  backup_file_lem ts src c h done =
      let made = mkdir_all destination in
      let (first, second, same) = then_ok made (copy_file part src (copy_of ts src)) c done in
      ap (at (copy_of ts src)) same
      ∙ copy_file_lem part src (copy_of ts src) (made c).1 h second
      ∙ mkdir_all-LeavesFile src destination c

  -- No copy falls on a source, and no two copies on one path.
  abbrev pub Apart : Str → List Str → Type 0
  Apart ts [] = Unit
  Apart ts (src ∷ sources) =
      ((copy_of ts src == src) ≡ false)
      × All (λ s. ((copy_of ts src == s) ≡ false) × ((copy_of ts s == copy_of ts src) ≡ false))
          sources
      × Apart ts sources

  seconds :
      (ts src : Str) (sources : List Str)
      → All
          (λ s. ((copy_of ts src == s) ≡ false) × ((copy_of ts s == copy_of ts src) ≡ false))
          sources
      → All (λ s. (copy_of ts s == copy_of ts src) ≡ false) sources
  seconds ts src [] h = tt
  seconds ts src (s ∷ sources) ((a, b), h) = (b, seconds ts src sources h)

  unread :
      (ts src : Str) (sources : List Str)
      → All
          (λ s. ((copy_of ts src == s) ≡ false) × ((copy_of ts s == copy_of ts src) ≡ false))
          sources
      → (c v w : Conn Files)
      → All
          (λ s. at (copy_of ts s) v ≡ at s (backup_file join base part destination ts src c).1)
          sources
      → w ≡ v
      → All (λ s. at (copy_of ts s) w ≡ at s c) sources
  unread ts src [] o c v w h e = tt
  unread ts src (s ∷ sources) ((a, b), o) c v w (h, hs) e = (
    ap (at (copy_of ts s)) e ∙ h ∙ backup_file-LeavesFile ts s src a c,
    unread ts src sources o c v w hs e,
  )

  -- A run that returns without an error has given the copy of every source the contents of the source,
  -- if no copy falls on a source or on another copy.
  pub run_once-copies :
      (ts : Str) (sources : List Str) (c : Conn Files)
      → Apart ts sources
      → (run_once join base part destination ts sources c).0 ≡ ok tt
      → All
          (λ src.
            at (copy_of ts src) (run_once join base part destination ts sources c).1 ≡ at src c)
          sources
  unfolding run_once
  run_once-copies ts [] c a h = tt
  run_once-copies ts (src ∷ sources) c (own, others, rest) h =
      let m = backup_file join base part destination ts src in
      let n = run_once join base part destination ts sources in
      let (first, second, same) = then_ok m n c h in
      let later = run_once-copies ts sources (m c).1 rest second in
      (
        ap (at (copy_of ts src)) same
            ∙ run_once-LeavesFile ts (copy_of ts src) sources (seconds ts src sources others)
                (m c).1
            ∙ backup_file_lem ts src c own first,
        unread ts src sources others c (n (m c).1).1
            (run_once join base part destination ts (src ∷ sources) c).1 later same,
      )
