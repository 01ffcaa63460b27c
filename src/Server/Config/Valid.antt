-- ===== src/Server/Config/Valid.antt =====
-- Which environments a configuration is loaded from, and what it then holds.
use mobile_db.Prelude.{
  ℕ, ◌≤◌, ltb, Bool-cases, nat_eq, pair_eq, ℤ, pos, negsuc, ℤ_eq, Str, codes, str_eq, str_eq_iff,
  str_eq_inst, length, All, ◌≡◌, refl, sym, ap, ◌∙◌, ◌≢◌, ◌↔◌, ◌⊎◌, inl, inr, Option, none, some,
  List, [], ◌∷◌, arith,
}
use mobile_db.Prelude.Decimal.{atoi}
use mobile_db.Server.Config.{
  Config, loaded, required, missing_of, Threshold, threshold, bad_threshold, threshold_of,
  read_threshold, config_with, complete, with_threshold, load_config,
}

-- The threshold that the variable sets: 1000 when it is not set, else a decimal number of an int
-- that is not negative.
abbrev pub Sets : Str → ℕ → Type 0
Sets raw n = ((raw ≡ []) × (n ≡ 1000)) ⊎ ((raw ≢ []) × (atoi raw ≡ some (pos n)))

threshold-inj : {n m : ℕ} → threshold n ≡ threshold m → n ≡ m
threshold-inj h = cc

threshold_of_lem : (o : Option ℤ) (n : ℕ) → (threshold_of o ≡ threshold n) ↔ (o ≡ some (pos n))
unfolding threshold_of
threshold_of_lem none n = ((λ h. cc), λ h. cc)
threshold_of_lem (some (pos m)) n = ((λ h. ap (λ k. some (pos k)) (threshold-inj h)), λ h. cc)
threshold_of_lem (some (negsuc m)) n = ((λ h. cc), λ h. cc)

read_threshold-Sets : (raw : Str) (n : ℕ) → (read_threshold raw ≡ threshold n) ↔ Sets raw n
unfolding read_threshold str_eq
read_threshold-Sets [] n = (
  (λ h. inl (refl, sym (threshold-inj h))),
  λ s. elim s [ inl (e, e') ↦ ap threshold (sym e') | inr (e, e') ↦ absurd (e refl) ],
)
read_threshold-Sets (c ∷ s) n = (
  (λ h. inr ((λ e. cc), (threshold_of_lem (atoi (c ∷ s)) n).0 h)),
  λ s'. elim s' [ inl (e, e') ↦ cc | inr (e, e') ↦ (threshold_of_lem (atoi (c ∷ s)) n).1 e' ],
)

none_missing :
    (environ : Str → Str) (keys : List Str)
    → (missing_of environ keys ≡ []) ↔ All (λ key. environ key ≢ []) keys
unfolding missing_of
none_missing environ [] = ((λ h. tt), λ h. refl)
none_missing environ (key ∷ keys) =
    ground (arith, str_eq_iff (environ key) [], none_missing environ keys)

loaded-inj : {c d : Config} → loaded c ≡ loaded d → c ≡ d
loaded-inj h = cc

complete_lem :
    (cfg cfg' : Config) (missing : List Str)
    → (complete cfg missing ≡ loaded cfg')
      ↔ ((missing ≡ []) × (32 ≤ length cfg.db_encryption_key) × (cfg ≡ cfg'))
unfolding complete
complete_lem cfg cfg' [] = elim (Bool-cases (ltb (length cfg.db_encryption_key) 32)) [
  | inl e ↦ rw e ((λ h. cc), λ (a, b, d). absurd (ground (arith, e, b)))
  | inr e ↦ rw e ((λ h. (refl, ground (arith, e), loaded-inj h)), λ (a, b, d). ap loaded d)
]
complete_lem cfg cfg' (key ∷ missing) = ((λ h. cc), λ h. cc)

module _ (environ : Str → Str) (trim_space : Str → Str) where
  with_threshold_lem :
      (th : Threshold) (cfg : Config)
      → (with_threshold environ trim_space th ≡ loaded cfg) ↔ (
          (n : ℕ) × (th ≡ threshold n)
          × All (λ key. environ key ≢ []) required
          × (32 ≤ length (environ (codes "DB_ENCRYPTION_KEY")))
          × (config_with environ trim_space n ≡ cfg))
  unfolding with_threshold config_with
  with_threshold_lem (bad_threshold e) cfg = ((λ h. cc), λ (n, h, _, _, _). cc)
  with_threshold_lem (threshold m) cfg =
      let (set, unset) = none_missing environ required in
      let at = config_with environ trim_space m in
      let (there, back) = complete_lem at cfg (missing_of environ required) in
      (
        (λ h. let (all_set, long, same) = there h in (m, refl, set all_set, long, same)),
        λ (n, e, all_set, long, same).
            back
              (unset all_set, long, ap (config_with environ trim_space) (threshold-inj e) ∙ same),
      )

  -- The configuration is loaded exactly when the variables that are required are all set, the key has
  -- 32 bytes or more, and the threshold is not set or a number of an int that is not negative.
  pub load_config-Sets :
      (cfg : Config)
      → (load_config environ trim_space ≡ loaded cfg) ↔ (
          (n : ℕ) × Sets (environ (codes "COMPACTION_THRESHOLD")) n
          × All (λ key. environ key ≢ []) required
          × (32 ≤ length (environ (codes "DB_ENCRYPTION_KEY")))
          × (config_with environ trim_space n ≡ cfg))
  unfolding load_config
  load_config-Sets cfg =
      let raw = environ (codes "COMPACTION_THRESHOLD") in
      let (there, back) = with_threshold_lem (read_threshold raw) cfg in
      (
        (λ h.
            let (n, e, set, long, same) = there h in
            (n, (read_threshold-Sets raw n).0 e, set, long, same)),
        λ (n, sets, set, long, same). back (n, (read_threshold-Sets raw n).1 sets, set, long, same),
      )
