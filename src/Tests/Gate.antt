-- ===== src/Tests/Gate.antt =====
-- Examples for the admin gate.
use mobile_db.Prelude.{
  suc, ◌+◌, map, All, str_eq_self, ◌≤◌, nat_eq, pair_eq, ℤ_eq, codes, str_eq_inst, ◌≡◌, refl, false,
  none, List, [], ◌∷◌, ◌++◌, arith,
}
use mobile_db.Server.AdminGate.{has_password, Buckets, Attempt, max_admin_attempts, ip_of}
use mobile_db.Server.AdminGate.Overlap.{no_gate, Turn, arrives, looks, refused_over, peak}
use mobile_db.Server.AdminGate.Overlap.Bound.{refused_over-peak}
use mobile_db.Server.AdminGate.Overlap.Flood.{Guesses, look_first, refused_over-flood}

-- A request with no password.
abbrev knock : Attempt
knock = record { remote_addr = codes "h"; password = none; at_limit = 3; at_test = 4; at_reset = 5 }

-- The turns of two requests that overlap.
abbrev two_turns : List Turn
two_turns = arrives knock ∷ arrives knock ∷ looks 1 ∷ looks 0 ∷ []

refused_over-peak_example :
    suc (refused_over (λ s. none) (λ s. s) (λ h p. false) [] [] (codes "h") two_turns no_gate)
    ≤ max_admin_attempts
      + peak (λ s. none) (λ s. s) (λ h p. false) [] [] (codes "h") two_turns no_gate
refused_over-peak_example =
    refused_over-peak (λ s. none) (λ s. s) (λ h p. false) [] [] (codes "h") 1 two_turns
      (ground arith)

-- Eight requests with no password.
abbrev crowd : List Attempt
crowd = knock ∷ knock ∷ knock ∷ knock ∷ knock ∷ knock ∷ knock ∷ knock ∷ []

guesses : All (Guesses (λ s. none) (λ s. s) (λ h p. false) [] [] (codes "h")) crowd
unfolding ip_of has_password
guesses =
    let g : Guesses (λ s. none) (λ s. s) (λ h p. false) [] [] (codes "h") knock =
      (str_eq_self (codes "h"), refl, refl) in
    (g, (g, (g, (g, (g, (g, (g, (g, tt))))))))

refused_over-flood_example :
    refused_over
      (λ s. none)
      (λ s. s)
      (λ h p. false)
      []
      []
      (codes "h")
      (map arrives crowd ++ look_first 8)
      no_gate
    ≡ 8
refused_over-flood_example =
    refused_over-flood (λ s. none) (λ s. s) (λ h p. false) [] [] (codes "h") crowd guesses

abbrev spent : Buckets
spent = (codes "h", record { count = 5; reset_at = 100 }) ∷ []
