-- ===== src/Prelude/Text/Decimal.antt =====
-- The decimal digits of a number determine it, and are digits.
use native.Mathlib.Omega.{arith}
use Prim.Native.Nat.{ℕ, zero, suc, ◌+◌, ◌*◌, ◌-◌, ◌/◌, ◌%◌, ◌≤◌, ◌<◌}
use mathlib.Core.Path.{◌≡◌, refl, sym, ap, ◌∙◌}
use mathlib.Core.Logic.{inl, inr}
use mathlib.Core.List.{List, [], ◌∷◌}
use zuul_proxy.Prelude.Tests.{ltb, Bool-cases}
use zuul_proxy.Prelude.Lists.{All}
use zuul_proxy.Prelude.Text.{emit, decimal}

-- A decimal digit.
abbrev pub IsDigit : ℕ → Type 0
IsDigit c = (48 ≤ c) × (c ≤ 57)

-- The number that a row of digits writes, after the digits of `n`.
value : ℕ → List ℕ → ℕ
value n [] = n
value n (c ∷ s) = value (n * 10 + (c - 48)) s

value-digit : (n d : ℕ) (s : List ℕ) → value n ((48 + d) ∷ s) ≡ value (n * 10 + d) s
unfolding value
value-digit n d s = ap (λ k. value k s) (omega arith)

value-emit : (fuel n : ℕ) (out : List ℕ) → n < fuel → value 0 (emit fuel n out) ≡ value n out
unfolding emit
value-emit zero n out h = omega arith
value-emit (suc fuel) n out h = elim (Bool-cases (ltb n 10)) [
  | inl e ↦ rw (e, value-digit 0 n out) (ap (λ k. value k out) (omega arith))
  | inr e ↦
      let many : 10 ≤ n = ground arith in
      let whole : n / 10 * 10 + n % 10 ≡ n = omega arith in
      rw (e, value-emit fuel (n / 10) ((48 + n % 10) ∷ out) (omega arith), value-digit, whole) refl
]

emit-IsDigit :
    (fuel n : ℕ) (out : List ℕ) → n < fuel → All IsDigit out → All IsDigit (emit fuel n out)
unfolding emit
emit-IsDigit zero n out h k = k
emit-IsDigit (suc fuel) n out h k = elim (Bool-cases (ltb n 10)) [
  | inl e ↦ let few : n < 10 = ground arith in rw (e) ((omega arith, omega arith), k)
  | inr e ↦ rw (e) (
      emit-IsDigit fuel (n / 10) ((48 + n % 10) ∷ out) (ground arith)
        ((omega arith, omega arith), k))
]

-- Two numbers with the same decimal digits are equal.
pub decimal_injective : (n m : ℕ) → decimal n ≡ decimal m → n ≡ m
unfolding decimal value
decimal_injective n m h =
    sym (value-emit (suc n) n [] (omega arith))
    ∙ ap (value 0) h
    ∙ value-emit (suc m) m [] (omega arith)

-- Every character is a decimal digit.
pub decimal-IsDigit : (n : ℕ) → All IsDigit (decimal n)
unfolding decimal
decimal-IsDigit n = emit-IsDigit (suc n) n [] (omega arith) tt
