-- ===== src/Prelude/ParseInt.antt =====
-- `parseInt(s)` and `parseInt(s, 10)`: white space, a sign, a hexadecimal prefix (only without a
-- radix), then the longest row of digits; NaN if there is none. A negative zero is zero here.
pub mod Decimal
use zuul_proxy.Prelude.Tests.{ltb, eqb, if◌then◌else◌}
use zuul_proxy.Prelude.Number.{Number, nan, int, pos, negsuc}
use zuul_proxy.Prelude.Text.{codes, between}
use Prim.Native.Nat.{ℕ, zero, suc, ◌+◌, ◌-◌, ◌*◌}
use Prim.Native.String.{String}
use mathlib.Core.Bool.{Bool, true, false, ◌||◌}
use mathlib.Core.Option.{Option, none, some}
use mathlib.Core.List.{List, [], ◌∷◌}

-- White space and line terminators of the language.
is_space : ℕ → Bool
is_space c =
    between 9 13 c
    || (eqb c 32
        || (eqb c 0xa0
            || (eqb c 0x1680
                || (between 0x2000 0x200a c
                    || (between 0x2028 0x2029 c
                        || (eqb c 0x202f || (eqb c 0x205f || (eqb c 0x3000 || eqb c 0xfeff))))))))

skip_spaces : List ℕ → List ℕ
skip_spaces [] = []
skip_spaces (c ∷ s) = if is_space c then skip_spaces s else c ∷ s

-- The value of a digit under 36.
digit_value : ℕ → Option ℕ
digit_value c =
    if between b'0' b'9' c
    then some (c - b'0')
    else if between b'a' b'z' c
    then some (c - b'a' + 10)
    else if between b'A' b'Z' c
    then some (c - b'A' + 10)
    else none

-- The value of the digits at the head of a text, with what was read before; `none` if there is no
-- digit at all.
read_digits : ℕ → Option ℕ → List ℕ → Option ℕ
read_digits radix acc [] = acc
read_digits radix acc (c ∷ s) = elim (digit_value c) [
  | none ↦ acc
  | some d ↦
      let rest = read_digits radix (some (elim acc [ none ↦ d | some n ↦ n * radix + d ])) s in
      if ltb d radix then rest else acc
]

-- A number from its sign and its magnitude.
signed : Bool → Option ℕ → Number
signed negative none = nan
signed false (some n) = int (pos n)
signed true (some zero) = int (pos 0)
signed true (some (suc n)) = int (negsuc n)

-- The digits after the sign; without a radix, `0x` makes it sixteen.
read_radix : Bool → List ℕ → Option ℕ
read_radix hex [] = none
read_radix hex (c ∷ []) = read_digits 10 none (c ∷ [])
read_radix true (c ∷ x ∷ s) =
    if eqb c b'0'
    then if eqb x b'x' || eqb x b'X' then read_digits 16 none s else read_digits 10 none (c ∷ x ∷ s)
    else read_digits 10 none (c ∷ x ∷ s)
read_radix false (c ∷ x ∷ s) = read_digits 10 none (c ∷ x ∷ s)

read_sign : Bool → List ℕ → Number
read_sign hex [] = nan
read_sign hex (c ∷ s) =
    if eqb c b'-'
    then signed true (read_radix hex s)
    else if eqb c b'+'
    then signed false (read_radix hex s)
    else signed false (read_radix hex (c ∷ s))

-- `parseInt(s)`
unfoldable pub parse_int : String → Number
unfolding is_space skip_spaces digit_value read_digits signed read_radix read_sign
parse_int s = read_sign true (skip_spaces (codes s))

-- `parseInt(s, 10)`
unfoldable pub parse_int_decimal : String → Number
unfolding is_space skip_spaces digit_value read_digits signed read_radix read_sign
parse_int_decimal s = read_sign false (skip_spaces (codes s))
