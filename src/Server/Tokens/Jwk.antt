-- ===== src/Server/Tokens/Jwk.antt =====
-- server/auth/jwt.go: the decoding of a key of the issuer's document. `base64.RawURLEncoding` and
-- `big.Int.SetBytes` are arguments.
use mobile_db.Prelude.{
  ℕ, ◌+◌, ◌-◌, ◌*◌, ◌%◌, ◌^◌, if◌then◌else◌, ◌==◌, nat_eq, pair_eq, ℤ_eq, ℤ, pos, negsuc,
  wrap_int64, Str, codes, str_eq_inst, ◌≡◌, refl, ◌↔◌, inl, inr, Option-cases, Option, none, some,
  List, [], ◌∷◌, arith,
}
use native.Mathlib.Nat.{add-mul, mul_assoc}
use mobile_db.Server.Tokens.{JwkKey}

-- `jwkKey`
pub record JwkFields : Type 0 where
  pub kid : Str
  pub kty : Str
  pub n : Str
  pub e : Str
  pub crv : Str
  pub x : Str
  pub y : Str

pub data Curve : Type 0 where
  p256 p384 p521 : Curve

pub data PublicKey : Type 0 where
  rsa_key : (n : ℕ) (e : ℤ) → PublicKey
  ec_key : (curve : Curve) (x y : ℕ) → PublicKey

-- The 64 bits of an int.
unfoldable pub bits : ℤ → ℕ
bits (pos n) = n
bits (negsuc n) = 2 ^ 64 - 1 - n

-- `e<<8 | int(b)`: the shift leaves the low eight bits zero, where the byte `b` goes.
unfoldable pub shift_in : ℤ → ℕ → ℤ
unfolding bits
shift_in e b = wrap_int64 (bits e * 256 + b)

-- The loop over the bytes of the exponent.
unfoldable pub exponent : List ℕ → ℤ → ℤ
unfolding shift_in
exponent [] e = e
exponent (b ∷ bs) e = exponent bs (shift_in e b)

unfoldable pub curve_of : Str → Option Curve
curve_of crv =
    if crv == codes "P-256"
    then some p256
    else if crv == codes "P-384"
    then some p384
    else if crv == codes "P-521"
    then some p521
    else none

infixl 5 ◌>>=◌
abbrev ◌>>=◌ : {A B : Type 0} → Option A → (A → Option B) → Option B
none >>= f = none
some a >>= f = f a

module _ (decode : Str → Option Str) (set_bytes : Str → ℕ) where
  unfoldable pub jwk_to_rsa : JwkFields → Option PublicKey
  unfolding exponent
  jwk_to_rsa k = do
    n_bytes ← decode k.n
    e_bytes ← decode k.e
    some (rsa_key (set_bytes n_bytes) (exponent e_bytes (pos 0)))

  unfoldable pub jwk_to_ec : JwkFields → Option PublicKey
  unfolding curve_of
  jwk_to_ec k = do
    x_bytes ← decode k.x
    y_bytes ← decode k.y
    curve ← curve_of k.crv
    some (ec_key curve (set_bytes x_bytes) (set_bytes y_bytes))

  -- The switch on the type of the key, in the loop of `fetchJWKS`.
  unfoldable pub public_key : JwkFields → Option PublicKey
  unfolding jwk_to_rsa jwk_to_ec
  public_key k =
      if k.kty == codes "RSA"
      then jwk_to_rsa k
      else if k.kty == codes "EC"
      then jwk_to_ec k
      else none

  -- The key as `fetch_jwks` takes it.
  unfoldable pub jwk_key : JwkFields → JwkKey PublicKey
  jwk_key k = record { kid = k.kid; decoded = public_key k }

-- The weight of a byte before these, and the number that bytes are with the highest first.
abbrev pub weight : List ℕ → ℕ
weight [] = 1
weight (b ∷ bs) = 256 * weight bs

abbrev pub big_endian : List ℕ → ℕ
big_endian [] = 0
big_endian (b ∷ bs) = b * weight bs + big_endian bs

bits-wrap_int64 : (m : ℕ) → bits (wrap_int64 m) ≡ m % 2 ^ 64
unfolding bits wrap_int64
bits-wrap_int64 m = ground arith

shift_in-wrap_int64 : (m b : ℕ) → shift_in (wrap_int64 m) b ≡ wrap_int64 (m * 256 + b)
unfolding shift_in wrap_int64
shift_in-wrap_int64 m b =
    let same : (m % 2 ^ 64 * 256 + b) % 2 ^ 64 ≡ (m * 256 + b) % 2 ^ 64 = omega arith in
    rw (bits-wrap_int64 m, same) refl

exponent-wrap_int64 :
    (bs : List ℕ) (m : ℕ) → exponent bs (wrap_int64 m) ≡ wrap_int64 (m * weight bs + big_endian bs)
unfolding exponent
exponent-wrap_int64 [] m = let same : m * 1 + 0 ≡ m = omega arith in rw same refl
exponent-wrap_int64 (b ∷ bs) m =
    let rest = exponent-wrap_int64 bs (m * 256 + b) in
    let split = add-mul (m * 256) b (weight bs) in
    let moved = mul_assoc m 256 (weight bs) in
    let same : (m * 256 + b) * weight bs + big_endian bs
        ≡ m * (256 * weight bs) + (b * weight bs + big_endian bs) =
      omega arith in
    rw (shift_in-wrap_int64 m b, rest, same) refl

exponent_lem : (bs : List ℕ) → exponent bs (pos 0) ≡ wrap_int64 (big_endian bs)
unfolding wrap_int64
exponent_lem bs =
    let whole = exponent-wrap_int64 bs 0 in
    let same : 0 * weight bs + big_endian bs ≡ big_endian bs = omega arith in rw (← same) whole

module _ (decode : Str → Option Str) (set_bytes : Str → ℕ) where
  -- An RSA key whose texts can be decoded has as its exponent the number that the bytes are, the
  -- highest first, taken modulo 2 ^ 64 as an int64; and a key is decoded only if both texts are.
  pub jwk_to_rsa-exponent :
      (k : JwkFields) (key : PublicKey)
      → (jwk_to_rsa decode set_bytes k ≡ some key) ↔ (
          (n : Str) × (e : Str) × (decode k.n ≡ some n)
          × (decode k.e ≡ some e)
          × (key ≡ rsa_key (set_bytes n) (wrap_int64 (big_endian e))))
  unfolding jwk_to_rsa
  jwk_to_rsa-exponent k key = elim (Option-cases (decode k.n)) [
    | inl none_n ↦ rw none_n (λ h. absurd cc, λ (n, e, h, h', r). absurd cc)
    | inr (n', some_n) ↦ elim (Option-cases (decode k.e)) [
      | inl none_e ↦ rw (some_n, none_e) (λ h. absurd cc, λ (n, e, h, h', r). absurd cc)
      | inr (e', some_e) ↦
          rw (some_n, some_e, exponent_lem) (λ h. (n', e', refl, refl, cc), λ (n, e, h, h', r). cc)
    ]
  ]
