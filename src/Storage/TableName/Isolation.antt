-- ===== src/Storage/TableName/Isolation.antt =====
-- When two tenants share a table, and when not.
use mobile_db.Prelude.{
  ℕ, ◌≤◌, nat_eq, pair_eq, ℤ_eq, Str, codes, str_eq_inst, append_cancel, All, ◌≡◌, refl, sym, ap,
  ◌∙◌, ◌⊎◌, [], ◌∷◌, ◌++◌, arith,
}
use mathlib.Core.List.{append-nil, append_assoc}
use mobile_db.Storage.TableName.{sanitize, dataset_table, table_key}

-- A lower-case ASCII letter or an ASCII digit.
abbrev pub IsPlain : ℕ → Type 0
IsPlain c = ((b'a' ≤ c) × (c ≤ b'z')) ⊎ ((b'0' ≤ c) × (c ≤ b'9'))

pub sanitize_plain : (s : Str) → All IsPlain s → sanitize s ≡ s
unfolding sanitize
sanitize_plain [] h = refl
sanitize_plain (c ∷ s) h = ground (arith, sanitize_plain s h.1)

table_key_plain : (s : Str) → All IsPlain s → (t : Str) → table_key (s ++ t) ≡ s ++ table_key t
unfolding table_key
table_key_plain [] h t = refl
table_key_plain (c ∷ s) h t = ground (arith, table_key_plain s h.1 t)

-- Two plain names before an underscore are told apart by what stands before the underscore.
split_plain :
    (s s' t t' : Str)
    → All IsPlain s
    → All IsPlain s'
    → s ++ b'_' ∷ t ≡ s' ++ b'_' ∷ t'
    → (s ≡ s') × (t ≡ t')
split_plain [] [] t t' h h' e = (refl, ground arith)
split_plain [] (c ∷ s') t t' h h' e = ground arith
split_plain (c ∷ s) [] t t' h h' e = ground arith
split_plain (c ∷ s) (c' ∷ s') t t' h h' e = ground (arith, split_plain s s' t t' h.1 h'.1)

prefix_key : (s : Str) → table_key (codes "op_log_" ++ s) ≡ codes "op_log_" ++ table_key s
unfolding table_key
prefix_key s = refl

underscore_key : (s : Str) → table_key (b'_' ∷ s) ≡ b'_' ∷ table_key s
unfolding table_key
underscore_key s = refl

key_of_plain :
    (a u d : Str)
    → All IsPlain a
    → All IsPlain u
    → All IsPlain d
    → table_key (dataset_table a u d)
      ≡ codes "op_log_" ++ (a ++ b'_' ∷ (u ++ b'_' ∷ table_key (d ++ [])))
unfolding dataset_table
key_of_plain a u d ha hu hd =
    prefix_key _
    ∙ ap (◌++◌ (codes "op_log_")) (
        rw (sanitize_plain a ha, sanitize_plain u hu, sanitize_plain d hd)
          (table_key_plain a ha _
            ∙ ap (◌++◌ a) (
                underscore_key _
                ∙ ap (◌∷◌ b'_')
                    (table_key_plain u hu _ ∙ ap (◌++◌ u) (underscore_key _ ∙ rw append-nil)))))

plain_key : (d : Str) → All IsPlain d → table_key (d ++ []) ≡ d
unfolding table_key
plain_key d h = table_key_plain d h [] ∙ append-nil d

-- Tenants whose app, user and dataset identifiers are made of lower-case letters and digits share
-- a table only if all three identifiers are equal, also where SQLite ignores case.
pub dataset_table-injective :
    (a u d a' u' d' : Str)
    → All IsPlain a
    → All IsPlain u
    → All IsPlain d
    → All IsPlain a'
    → All IsPlain u'
    → All IsPlain d'
    → table_key (dataset_table a u d) ≡ table_key (dataset_table a' u' d')
    → (a ≡ a') × (u ≡ u') × (d ≡ d')
dataset_table-injective a u d a' u' d' ha hu hd ha' hu' hd' e =
    let e' =
      append_cancel (codes "op_log_") _ _
        (sym (key_of_plain a u d ha hu hd) ∙ e ∙ key_of_plain a' u' d' ha' hu' hd') in
    let (ea, rest) = split_plain a a' _ _ ha ha' e' in
    let (eu, last) = split_plain u u' _ _ hu hu' rest in
    (ea, eu, sym (plain_key d hd) ∙ last ∙ plain_key d' hd')

sanitize-append : (s t : Str) → sanitize (s ++ t) ≡ sanitize s ++ sanitize t
unfolding sanitize
sanitize-append [] t = refl
sanitize-append (c ∷ s) t = rw (sanitize-append s t)

-- Without that restriction two tenants can share a table: an underscore moves the border between
-- the app and the user, for every choice of the parts.
dataset_table_collision :
    (a b u d : Str)
    → dataset_table (a ++ codes "_" ++ b) u d ≡ dataset_table a (b ++ codes "_" ++ u) d
unfolding dataset_table
dataset_table_collision a b u d = simp (sanitize-append, append_assoc) (unfold sanitize in refl)
