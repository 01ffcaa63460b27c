-- ===== src/Prelude/Decimal.antt =====
-- Go's `strconv.Atoi` on a 64-bit machine.
use Prim.Native.Nat.{ℕ, zero, suc, ◌+◌, ◌-◌, ◌*◌, ◌^◌}
use mathlib.Core.Bool.{Bool, false}
use mathlib.Core.Option.{Option, none, some}
use mathlib.Core.List.{[], ◌∷◌}
use mobile_db.Prelude.Tests.{ltb, leb, nat_beq, if◌then◌else◌}
use mobile_db.Prelude.Int.{ℤ, pos, negsuc}
use mobile_db.Prelude.Bytes.{Str}

unfoldable pub is_digit : ℕ → Bool
is_digit c = if ltb c b'0' then false else leb c b'9'

-- The digits' value after `n`; `none` at a byte that is no digit.
unfoldable pub scan_digits : Str → ℕ → Option ℕ
unfolding is_digit
scan_digits [] n = some n
scan_digits (c ∷ s) n =
    let rest = scan_digits s (n * 10 + (c - b'0')) in if is_digit c then rest else none

unfoldable pub unsigned : Str → Option ℕ
unsigned [] = none
unsigned (c ∷ s) = scan_digits (c ∷ s) 0

-- The range of an int: 2^63 - 1 above, -2^63 below.
unfoldable pub positive : Option ℕ → Option ℤ
positive none = none
positive (some n) = if ltb n (2 ^ 63) then some (pos n) else none

unfoldable pub negative : Option ℕ → Option ℤ
negative none = none
negative (some zero) = some (pos 0)
negative (some (suc n)) = if ltb n (2 ^ 63) then some (negsuc n) else none

unfoldable pub atoi : Str → Option ℤ
unfolding unsigned positive negative scan_digits
atoi [] = none
atoi (c ∷ s) =
    if nat_beq c b'-'
    then negative (unsigned s)
    else if nat_beq c b'+'
    then positive (unsigned s)
    else positive (unsigned (c ∷ s))
