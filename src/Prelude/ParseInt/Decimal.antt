-- ===== src/Prelude/ParseInt/Decimal.antt =====
-- The text of a natural number is read back as the number.
use native.Mathlib.Omega.{arith}
use Prim.Native.Nat.{ℕ, zero, suc, ◌+◌, ◌*◌, ◌/◌, ◌%◌, ◌≤◌, ◌<◌}
use Prim.Native.String.{String}
use mathlib.Core.Path.{◌≡◌, refl, ◌∙◌, ap}
use mathlib.Core.Logic.{◌⊎◌, inl, inr}
use mathlib.Core.Bool.{true, false}
use mathlib.Core.Option.{none, some}
use mathlib.Core.List.{List, [], ◌∷◌}
use zuul_proxy.Prelude.Tests.{ltb, eqb, Bool-cases}
use zuul_proxy.Prelude.Number.{int, pos}
use zuul_proxy.Prelude.Text.{codes, concat, digit, show_from, show}
use zuul_proxy.Prelude.ParseInt.{
  is_space, skip_spaces, digit_value, read_digits, signed, read_radix, read_sign, parse_int,
  parse_int_decimal,
}

-- A decimal digit.
abbrev pub IsDigit : ℕ → Type 0
IsDigit c = (48 ≤ c) × (c ≤ 57)

codes-digit : (d : ℕ) (out : String) → d < 10 → codes (concat (digit d) out) ≡ (48 + d) ∷ codes out
unfolding digit
codes-digit d out h = elim (Bool-cases (eqb d 0)) [
  | inl e ↦ let same : d ≡ 0 = ground arith in rw (same) refl
  | inr e0 ↦ elim (Bool-cases (eqb d 1)) [
    | inl e ↦ let same : d ≡ 1 = ground arith in rw (same) refl
    | inr e1 ↦ elim (Bool-cases (eqb d 2)) [
      | inl e ↦ let same : d ≡ 2 = ground arith in rw (same) refl
      | inr e2 ↦ elim (Bool-cases (eqb d 3)) [
        | inl e ↦ let same : d ≡ 3 = ground arith in rw (same) refl
        | inr e3 ↦ elim (Bool-cases (eqb d 4)) [
          | inl e ↦ let same : d ≡ 4 = ground arith in rw (same) refl
          | inr e4 ↦ elim (Bool-cases (eqb d 5)) [
            | inl e ↦ let same : d ≡ 5 = ground arith in rw (same) refl
            | inr e5 ↦ elim (Bool-cases (eqb d 6)) [
              | inl e ↦ let same : d ≡ 6 = ground arith in rw (same) refl
              | inr e6 ↦ elim (Bool-cases (eqb d 7)) [
                | inl e ↦ let same : d ≡ 7 = ground arith in rw (same) refl
                | inr e7 ↦ elim (Bool-cases (eqb d 8)) [
                  | inl e ↦ let same : d ≡ 8 = ground arith in rw (same) refl
                  | inr e8 ↦ let same : d ≡ 9 = ground arith in rw (same) refl
                ]
              ]
            ]
          ]
        ]
      ]
    ]
  ]
]

digit_value_lem : (d : ℕ) → d < 10 → digit_value (48 + d) ≡ some d
unfolding digit_value
digit_value_lem d h = ground arith

read_one :
    (d : ℕ) (s : List ℕ) → d < 10 → read_digits 10 none ((48 + d) ∷ s) ≡ read_digits 10 (some d) s
unfolding read_digits
read_one d s h = rw (digit_value_lem d h, read_digits) (ground arith)

read_next :
    (n d : ℕ) (s : List ℕ)
    → d < 10
    → read_digits 10 (some n) ((48 + d) ∷ s) ≡ read_digits 10 (some (n * 10 + d)) s
unfolding read_digits
read_next n d s h = rw (digit_value_lem d h, read_digits) (ground arith)

read-show_from :
    (fuel n : ℕ) (out : String)
    → n < fuel
    → read_digits 10 none (codes (show_from fuel n out)) ≡ read_digits 10 (some n) (codes out)
unfolding show_from
read-show_from zero n out h = absurd (omega arith)
read-show_from (suc fuel) n out h = elim (Bool-cases (ltb n 10)) [
  | inl small ↦ rw (small, codes-digit n out (ground arith)) (read_one n (codes out) (ground arith))
  | inr large ↦
      let earlier = read-show_from fuel (n / 10) (concat (digit (n % 10)) out) (ground arith) in
      rw (large, earlier, codes-digit (n % 10) out (omega arith))
        (read_next (n / 10) (n % 10) (codes out) (omega arith)
          ∙ ap (λ k. read_digits 10 (some k) (codes out)) (omega arith))
]

-- The head of a text of digits is a digit, and so is what follows it, if anything does.
pub data Digits : List ℕ → Type 0 where
  one : (c : ℕ) → IsDigit c → Digits (c ∷ [])
  more : (c d : ℕ) (s : List ℕ) → IsDigit c → IsDigit d → Digits (c ∷ d ∷ s)

read_sign-Digits :
    (l : List ℕ) → Digits l → read_sign true (skip_spaces l) ≡ signed false (read_digits 10 none l)
unfolding read_sign skip_spaces is_space read_radix
read_sign-Digits _ (one c h) = ground arith
read_sign-Digits _ (more c d s h k) = ground arith

Digits-show_from :
    (fuel n : ℕ) (out : String)
    → n < fuel
    → (codes out ≡ []) ⊎ ((c : ℕ) × ((s : List ℕ) × (codes out ≡ c ∷ s) × IsDigit c))
    → Digits (codes (show_from fuel n out))
unfolding show_from
Digits-show_from zero n out h o = absurd (omega arith)
Digits-show_from (suc fuel) n out h o = elim (Bool-cases (ltb n 10)) [
  | inl small ↦
      rw (small, codes-digit n out (ground arith))
        (elim o [
          | inl blank ↦ rw (blank) (one (48 + n) (ground arith))
          | inr (c, (s, same, k)) ↦ rw (same) (more (48 + n) c s (ground arith) k)
        ])
  | inr large ↦ rw (large) (
      Digits-show_from fuel (n / 10) (concat (digit (n % 10)) out) (ground arith) (
        inr (
          48 + n % 10,
          (codes out, codes-digit (n % 10) out (omega arith), (omega arith, omega arith)),
        )))
]

pub Digits-show : (n : ℕ) → Digits (codes (show n))
unfolding show
Digits-show n = Digits-show_from (suc n) n "" (omega arith) (inl refl)

-- The decimal text of a natural number is read back as the number.
pub parse_int-show : (n : ℕ) → parse_int (show n) ≡ int (pos n)
unfolding parse_int show signed read_digits
parse_int-show n =
    read_sign-Digits (codes (show n)) (Digits-show n)
    ∙ ap (signed false) (read-show_from (suc n) n "" (omega arith))

read_sign_decimal-Digits :
    (l : List ℕ) → Digits l → read_sign false (skip_spaces l) ≡ signed false (read_digits 10 none l)
unfolding read_sign skip_spaces is_space read_radix
read_sign_decimal-Digits _ (one c h) = ground arith
read_sign_decimal-Digits _ (more c d s h k) = ground arith

-- So it is with the radix ten.
pub parse_int_decimal-show : (n : ℕ) → parse_int_decimal (show n) ≡ int (pos n)
unfolding parse_int_decimal show signed read_digits
parse_int_decimal-show n =
    read_sign_decimal-Digits (codes (show n)) (Digits-show n)
    ∙ ap (signed false) (read-show_from (suc n) n "" (omega arith))
