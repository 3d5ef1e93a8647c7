-- ===== src/Common/Decimal.antt =====
-- The text of a natural number.
use Prim.Native.Nat.{ℕ, zero, suc, ◌+◌, ◌-◌, ◌*◌, ◌/◌, ◌%◌, ◌<◌, ◌≤◌}
use Prim.Native.Char.{Char, code}
use Prim.Native.String.{String}
use mathlib.Core.Path.{◌≡◌, refl, sym, ap, ◌∙◌}
use mathlib.Core.Logic.{inl, inr}
use mathlib.Core.Bool.{Bool, true, false, ◌&&◌}
use native.Mathlib.Omega.{arith}
use formspec_web.Common.Tests.{if◌then◌else◌, ltb, ◌==◌, Bool-cases}

-- `digits[n]`, and the default past the end.
abbrev pub digit_of : Char → String → ℕ → Char
digit_of default String.[] n = default
digit_of default (String.◌∷◌ c s) zero = c
digit_of default (String.◌∷◌ c s) (suc n) = digit_of default s n

-- The digits of a number before a text; the fuel counts digits.
abbrev pub decimal_before : ℕ → ℕ → String → String
decimal_before zero n text = text
decimal_before (suc fuel) n text =
    let longer = String.◌∷◌ (digit_of "9" "0123456789" (n % 10)) text in
    elim (ltb n 10) [ true ↦ longer | false ↦ decimal_before fuel (n / 10) longer ]

-- `String(n)`: a number has no more digits than its successor says.
unfoldable pub decimal : ℕ → String
decimal n = decimal_before (suc n) n ""

abbrev pub zeros : ℕ → String → String
zeros zero s = s
zeros (suc n) s = String.◌∷◌ "0" (zeros n s)

abbrev pub count : String → ℕ
count String.[] = 0
count (String.◌∷◌ c s) = suc (count s)

-- `n.toString().padStart(6, '0')`
abbrev pub padded : ℕ → String
padded n = zeros (6 - count (decimal n)) (decimal n)

-- The number that digits stand for, after the number before them.
abbrev number : ℕ → String → ℕ
number n String.[] = n
number n (String.◌∷◌ c s) = number (n * 10 + (code c - b'0')) s

-- Every number below the bound passes the test.
unfoldable pub below : ℕ → (ℕ → Bool) → Bool
below zero p = true
below (suc n) p = p n && below n p

pub below_lem : (n x : ℕ) (p : ℕ → Bool) → below n p ≡ true → x < n → p x ≡ true
unfolding below
below_lem zero x p h lt = absurd (omega arith)
below_lem (suc n) x p h lt = ground (arith, below_lem n x p)

digits_read : below 10 (λ n. (code (digit_of "9" "0123456789" n) - b'0') == n) ≡ true
unfolding below
digits_read = refl

digit_read : (n : ℕ) → n < 10 → code (digit_of "9" "0123456789" n) - b'0' ≡ n
digit_read n lt = ground (arith, below_lem 10 n _ digits_read lt)

decimal_before-digit :
    (fuel n : ℕ) (text : String)
    → decimal_before (suc fuel) n text ≡ (
        let longer = String.◌∷◌ (digit_of "9" "0123456789" (n % 10)) text in
        if ltb n 10 then longer else decimal_before fuel (n / 10) longer)
decimal_before-digit fuel n text = ground arith

number-decimal_before :
    (fuel n : ℕ) (text : String) → n < fuel → number 0 (decimal_before fuel n text) ≡ number n text
number-decimal_before zero n text lt = absurd (omega arith)
number-decimal_before (suc fuel) n text lt =
    let digit = digit_read (n % 10) (omega arith) in
    let longer = String.◌∷◌ (digit_of "9" "0123456789" (n % 10)) text in
    elim (Bool-cases (ltb n 10)) [
      | inl small ↦
          let low : n < 10 = ground (arith, small) in
          ap (number 0) (
            decimal_before-digit fuel n text
            ∙ ap (λ b. if b then longer else decimal_before fuel (n / 10) longer) small)
          ∙ ap (λ m. number m text) (omega (arith, digit, low))
      | inr large ↦
          let high : 10 ≤ n = ground (arith, large) in
          ap (number 0) (
            decimal_before-digit fuel n text
            ∙ ap (λ b. if b then longer else decimal_before fuel (n / 10) longer) large)
          ∙ number-decimal_before fuel (n / 10) longer (omega (arith, high, lt))
          ∙ ap (λ m. number m text) (omega (arith, digit))
    ]

number-zeros : (n : ℕ) (s : String) → number 0 (zeros n s) ≡ number 0 s
number-zeros zero s = refl
number-zeros (suc n) s = number-zeros n s

number-padded : (n : ℕ) → number 0 (padded n) ≡ n
unfolding decimal
number-padded n =
    number-zeros (6 - count (decimal n)) (decimal n)
    ∙ number-decimal_before (suc n) n "" (omega arith)

pub padded_injective : (m n : ℕ) → padded m ≡ padded n → m ≡ n
padded_injective m n e = sym (number-padded m) ∙ ap (number 0) e ∙ number-padded n
