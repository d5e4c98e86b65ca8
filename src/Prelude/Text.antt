-- ===== src/Prelude/Text.antt =====
-- JavaScript strings. A text that the program keeps or compares is a native `String`; where it
-- walks the characters, `codes` gives the list of code points.
pub mod Decimal
use Prim.Native.Char.{code}
use text.Mathlib.TextEquality.{Char-path}
use native.Mathlib.Omega.{arith}
use Prim.Native.Nat.{ℕ, zero, suc, ◌+◌, ◌/◌, ◌%◌}
use Prim.Native.String.{String}
use mathlib.Core.Path.{◌≡◌, refl, ap₂}
use mathlib.Core.Bool.{Bool, true, false, ◌&&◌, ◌||◌}
use mathlib.Core.Option.{Option, none, some}
use mathlib.Core.List.{List, [], ◌∷◌, map}
use zuul_proxy.Prelude.Tests.{ltb, leb, eqb, if◌then◌else◌}

abbrev pub codes : String → List ℕ
codes String.[] = []
codes (String.◌∷◌ c s) = code c ∷ codes s

-- `s + t`, also as a template literal
abbrev pub concat : String → String → String
concat String.[] t = t
concat (String.◌∷◌ c s) t = String.◌∷◌ c (concat s t)

pub codes_injective : (s t : String) → codes s ≡ codes t → s ≡ t
codes_injective String.[] String.[] h = refl
codes_injective String.[] (String.◌∷◌ d t) h = cc
codes_injective (String.◌∷◌ c s) String.[] h = cc
codes_injective (String.◌∷◌ c s) (String.◌∷◌ d t) h =
    ap₂ String.◌∷◌ (Char-path c d (cc)) (codes_injective s t (cc))

-- `s.length`: the number of UTF-16 code units; a code point past the first plane takes two.
unfoldable pub js_length : String → ℕ
js_length String.[] = 0
js_length (String.◌∷◌ c s) = (if ltb (code c) 0x10000 then 1 else 2) + js_length s

-- A range of characters, as in `[0-9]`.
abbrev pub between : ℕ → ℕ → ℕ → Bool
between lo hi c = leb lo c && leb c hi

-- `[0-9]`
abbrev pub is_digit : ℕ → Bool
is_digit c = between b'0' b'9' c

-- `[a-fA-F0-9]`
unfoldable pub is_hex : ℕ → Bool
is_hex c = between b'0' b'9' c || (between b'a' b'f' c || between b'A' b'F' c)

-- `^…$` for a row of single-character classes: one character for each class, and no more.
unfoldable pub matches : List (ℕ → Bool) → List ℕ → Bool
matches [] [] = true
matches [] (c ∷ s) = false
matches (p ∷ ps) [] = false
matches (p ∷ ps) (c ∷ s) = p c && matches ps s

-- `p{n}` before the classes `ps`
abbrev pub times : ℕ → (ℕ → Bool) → List (ℕ → Bool) → List (ℕ → Bool)
times zero p ps = ps
times (suc n) p ps = p ∷ times n p ps

-- `c.toLowerCase()` on one code point. Only the ASCII letters are mapped: the program compares
-- the result with a lower-cased hexadecimal address, and no other code point has an image that
-- consists of the characters of one.
unfoldable pub lower : ℕ → ℕ
lower c = if between b'A' b'Z' c then c + 32 else c

abbrev pub to_lower_case : String → List ℕ
to_lower_case s = map lower (codes s)

-- Equality of lists of code points.
unfoldable pub codes_eq : List ℕ → List ℕ → Bool
codes_eq [] [] = true
codes_eq [] (d ∷ t) = false
codes_eq (c ∷ s) [] = false
codes_eq (c ∷ s) (d ∷ t) = eqb c d && codes_eq s t

pub codes_eq→eq : (s t : List ℕ) → codes_eq s t ≡ true → s ≡ t
unfolding codes_eq
codes_eq→eq [] [] h = refl
codes_eq→eq [] (d ∷ t) h = cc
codes_eq→eq (c ∷ s) [] h = cc
codes_eq→eq (c ∷ s) (d ∷ t) h = ground (arith, codes_eq→eq s t)

pub codes_eq_refl : (s : List ℕ) → codes_eq s s ≡ true
unfolding codes_eq
codes_eq_refl [] = refl
codes_eq_refl (c ∷ s) = ground (arith, codes_eq_refl s)

-- The decimal digits of a number, before `out`; each round takes one digit off, so the fuel `n + 1`
-- is enough.
unfoldable pub emit : ℕ → ℕ → List ℕ → List ℕ
emit zero n out = out
emit (suc fuel) n out =
    let rest = emit fuel (n / 10) ((b'0' + n % 10) ∷ out) in
    if ltb n 10 then (b'0' + n) ∷ out else rest

-- `${n}`
unfoldable pub decimal : ℕ → List ℕ
unfolding emit
decimal n = emit (suc n) n []

unfoldable pub digit : ℕ → String
digit d =
    if eqb d 0
    then "0"
    else if eqb d 1
    then "1"
    else if eqb d 2
    then "2"
    else if eqb d 3
    then "3"
    else if eqb d 4
    then "4"
    else if eqb d 5
    then "5"
    else if eqb d 6
    then "6"
    else if eqb d 7
    then "7"
    else if eqb d 8
    then "8"
    else "9"

unfoldable pub show_from : ℕ → ℕ → String → String
show_from zero n out = out
show_from (suc fuel) n out =
    let rest = show_from fuel (n / 10) (concat (digit (n % 10)) out) in
    if ltb n 10 then concat (digit n) out else rest

-- `${n}`, as a text
unfoldable pub show : ℕ → String
unfolding digit show_from
show n = show_from (suc n) n ""

-- `s.slice(n)`, on a text that begins with n characters of the first plane.
abbrev pub drop_text : ℕ → String → String
drop_text zero s = s
drop_text (suc n) String.[] = ""
drop_text (suc n) (String.◌∷◌ c s) = drop_text n s

-- The rest of a text after a prefix, `none` where it does not start with it.
abbrev pub strip : String → String → Option String
strip String.[] s = some s
strip (String.◌∷◌ c p) String.[] = none
strip (String.◌∷◌ c p) (String.◌∷◌ d s) = if eqb (code c) (code d) then strip p s else none

-- `s.repeat(n)`
abbrev pub repeat : ℕ → String → String
repeat zero s = ""
repeat (suc n) s = concat s (repeat n s)
