-- ===== src/Server/Tokens/Urls.antt =====
-- The addresses of a realm.
use mobile_db.Prelude.{
  Bool-cases, ◌==◌, Str, str_eq_inst, nat_eq, ◌≡◌, refl, ap, inl, inr, true, false, ◌&&◌, [], ◌∷◌,
  ◌++◌, arith,
}
use mobile_db.Server.Tokens.{trim_slashes, realm_url}

trim_slashes-slash : (s : Str) → trim_slashes (s ++ (b'/' ∷ [])) ≡ trim_slashes s
unfolding trim_slashes mobile_db.Prelude.str_eq
trim_slashes-slash [] = refl
trim_slashes-slash (c ∷ s) = rw (trim_slashes-slash s) refl

-- A slash at the end of the address of Keycloak changes nothing.
realm_url-slash : (url realm : Str) → realm_url (url ++ (b'/' ∷ [])) realm ≡ realm_url url realm
unfolding realm_url
realm_url-slash url realm = rw (trim_slashes-slash url) refl
