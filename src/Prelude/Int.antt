-- ===== src/Prelude/Int.antt =====
-- Signed integers, with Go's int64 wrap-around on `++`.
use Prim.Native.Nat.{ℕ, zero, suc, ◌+◌, ◌-◌, ◌*◌, ◌%◌, ◌^◌, ◌≤◌, ◌<◌}
use mathlib.Core.Path.{◌≡◌}
use mathlib.Core.Logic.{◌↔◌}
use mathlib.Core.Bool.{Bool, true}
use native.Mathlib.Omega.{arith}
use mobile_db.Prelude.Tests.{ltb, leb, nat_beq, Comparable, if◌then◌else◌}

-- `negsuc n` is -(n + 1).
pub data ℤ : Type 0 where
  pos : ℕ → ℤ
  negsuc : ℕ → ℤ

abbrev pub pos_part : ℤ → ℕ
pos_part (pos n) = n
pos_part (negsuc n) = 0

abbrev pub neg_part : ℤ → ℕ
neg_part (pos n) = 0
neg_part (negsuc n) = suc n

infix 50 ◌≤ℤ◌ ◌<ℤ◌
abbrev pub ◌≤ℤ◌ : ℤ → ℤ → Type 0
a ≤ℤ b = pos_part a + neg_part b ≤ pos_part b + neg_part a

abbrev pub ◌<ℤ◌ : ℤ → ℤ → Type 0
a <ℤ b = pos_part a + neg_part b < pos_part b + neg_part a

abbrev pub ltb_ℤ : ℤ → ℤ → Bool
ltb_ℤ a b = ltb (pos_part a + neg_part b) (pos_part b + neg_part a)

abbrev pub leb_ℤ : ℤ → ℤ → Bool
leb_ℤ a b = leb (pos_part a + neg_part b) (pos_part b + neg_part a)

abbrev pub beq_ℤ : ℤ → ℤ → Bool
beq_ℤ a b = nat_beq (pos_part a + neg_part b) (pos_part b + neg_part a)

pub eq_of_parts : (a b : ℤ) → pos_part a + neg_part b ≡ pos_part b + neg_part a → a ≡ b
eq_of_parts a b h = ground arith

pub beq_ℤ_iff : (a b : ℤ) → (beq_ℤ a b ≡ true) ↔ (a ≡ b)
beq_ℤ_iff a b = ground arith

instance abbrev pub ℤ_eq : Comparable ℤ
ℤ_eq = record { equals = beq_ℤ; equals_iff = beq_ℤ_iff }

abbrev pub max_int64 : ℤ
max_int64 = pos (2 ^ 63 - 1)

abbrev pub min_int64 : ℤ
min_int64 = negsuc (2 ^ 63 - 1)

-- `x + 1` on an int64: the largest value wraps to the smallest.
unfoldable pub inc_int64 : ℤ → ℤ
inc_int64 (pos n) = if nat_beq n (2 ^ 63 - 1) then min_int64 else pos (n + 1)
inc_int64 (negsuc zero) = pos 0
inc_int64 (negsuc (suc n)) = negsuc n

-- Below the largest value the result is one more.
pub inc_int64_parts :
    (a : ℤ)
    → a <ℤ max_int64
    → pos_part (inc_int64 a) + neg_part a ≡ pos_part a + neg_part (inc_int64 a) + 1
unfolding inc_int64
inc_int64_parts (pos n) h = ground arith
inc_int64_parts (negsuc zero) h = omega arith
inc_int64_parts (negsuc (suc n)) h = omega arith

-- The int64 with these 64 bits.
unfoldable pub wrap_int64 : ℕ → ℤ
wrap_int64 n = let m = n % 2 ^ 64 in if ltb m (2 ^ 63) then pos m else negsuc (2 ^ 64 - 1 - m)

-- The sum of two int64, with its wrap-around.
unfoldable pub add_int64 : ℤ → ℤ → ℤ
unfolding wrap_int64
add_int64 a b =
    wrap_int64
      (pos_part a + pos_part b + 2 ^ 64 * (neg_part a + neg_part b) - (neg_part a + neg_part b))
