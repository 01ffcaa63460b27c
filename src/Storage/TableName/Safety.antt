-- ===== src/Storage/TableName/Safety.antt =====
-- The table name holds nothing that could end it inside an SQL statement.
use mobile_db.Prelude.{
  ℕ, ◌≤◌, nat_eq, pair_eq, ℤ_eq, Str, codes, str_eq_inst, All, ◌≡◌, ◌⊎◌, [], ◌∷◌, ◌++◌, arith,
}
use mobile_db.Storage.TableName.{sanitize, dataset_table}

-- An ASCII letter, an ASCII digit or an underscore.
abbrev pub IsNameByte : ℕ → Type 0
IsNameByte c =
    ((b'a' ≤ c) × (c ≤ b'z')) ⊎ ((b'A' ≤ c) × (c ≤ b'Z')) ⊎ ((b'0' ≤ c) × (c ≤ b'9')) ⊎ (c ≡ b'_')

All-append : (s t : Str) → All IsNameByte s → All IsNameByte t → All IsNameByte (s ++ t)
All-append [] t a b = b
All-append (c ∷ s) t a b = (a.0, All-append s t a.1 b)

sanitize-All : (s : Str) → All IsNameByte (sanitize s)
unfolding sanitize
sanitize-All [] = tt
sanitize-All (c ∷ s) = (ground arith, sanitize-All s)

-- Whatever the identifiers, every byte of the table name is a letter, a digit or an underscore.
pub dataset_table-All : (a u d : Str) → All IsNameByte (dataset_table a u d)
unfolding dataset_table
dataset_table-All a u d = All-append (codes "op_log_") _ (ground arith) (
    All-append (sanitize a) _ (sanitize-All a) (
      All-append (codes "_") _ (ground arith) (
        All-append (sanitize u) _ (sanitize-All u)
          (All-append (codes "_") _ (ground arith) (sanitize-All d)))))
