-- ===== src/Text/Number.antt =====
-- `strconv.Atoi`: a sign or none, decimal digits, and 64 bits.
use chatta.Prelude.{
  ltb, leb, ◌==◌, if◌then◌else◌, within, Bool-cases, ltb→lt, ℕ, zero, suc, ◌+◌, ◌-◌, ◌*◌, ◌/◌, ◌%◌,
  ◌^◌, ◌≤◌, ◌<◌, ◌≡◌, refl, ap, ◌∙◌, inl, inr, true, Option, none, some, [], ◌∷◌, arith,
}
use chatta.Prelude.Int.{ℤ, pos, negsuc}
use chatta.Text.Basic.{Text}

-- The number that these digits continue.
unfoldable pub digits_from : ℕ → Text → Option ℕ
digits_from n [] = some n
digits_from n (c ∷ s) =
    let more = digits_from (10 * n + (c - b'0')) s in if within b'0' b'9' c then more else none

abbrev pub numeral : Text → Option ℕ
numeral [] = none
numeral (c ∷ s) = digits_from 0 (c ∷ s)

abbrev pub int_max : ℕ
int_max = 2 ^ 63 - 1

abbrev pub in_range : Option ℕ → Option ℤ
in_range none = none
in_range (some n) = if leb n int_max then some (pos n) else none

-- A minus sign; -(n + 1) is in range for the same `n`.
abbrev pub negated : Option ℕ → Option ℤ
negated none = none
negated (some zero) = some (pos 0)
negated (some (suc n)) = if leb n int_max then some (negsuc n) else none

unfoldable pub atoi : Text → Option ℤ
atoi [] = none
atoi (c ∷ s) =
    if c == b'-'
    then negated (numeral s)
    else if c == b'+'
    then in_range (numeral s)
    else in_range (numeral (c ∷ s))

-- `fmt.Sprint` of a number: its digits in front of a text, by a fuel that the number itself is.
digits_onto : ℕ → ℕ → Text → Text
digits_onto zero n s = s
digits_onto (suc fuel) n s =
    let more = digits_onto fuel (n / 10) ((n % 10 + b'0') ∷ s) in
    if ltb n 10 then (n + b'0') ∷ s else more

unfoldable pub decimal : ℕ → Text
unfolding digits_onto
decimal n = digits_onto (suc n) n []

-- `%d` of an `int`.
unfoldable pub decimal_ℤ : ℤ → Text
decimal_ℤ (pos n) = decimal n
decimal_ℤ (negsuc n) = b'-' ∷ decimal (suc n)

digit_step :
    (m d : ℕ) (s : Text) → d < 10 → digits_from m ((d + b'0') ∷ s) ≡ digits_from (10 * m + d) s
unfolding digits_from
digit_step m d s h =
    let inside : within b'0' b'9' (d + b'0') ≡ true = ground arith in
    let digit : d + b'0' - b'0' ≡ d = omega arith in rw (inside, digit) refl

digits_onto-read :
    (fuel n : ℕ) (s : Text) → n < fuel → digits_from 0 (digits_onto fuel n s) ≡ digits_from n s
unfolding digits_onto
digits_onto-read zero n s h = absurd (omega (arith, h))
digits_onto-read (suc fuel) n s h = elim (Bool-cases (ltb n 10)) [
  | inl small ↦
      rw small (digit_step 0 n s (ltb→lt n 10 small) ∙ ap (λ k. digits_from k s) (omega arith))
  | inr large ↦
      let ten : 10 ≤ n = ground (arith, large) in
      rw large (
        digits_onto-read fuel (n / 10) ((n % 10 + b'0') ∷ s) (omega (arith, h, ten))
        ∙ digit_step (n / 10) (n % 10) s (omega arith)
        ∙ ap (λ k. digits_from k s) (omega arith))
]

-- A number is read back from its digits.
pub digits_from-decimal : (n : ℕ) → digits_from 0 (decimal n) ≡ some n
unfolding decimal digits_from
digits_from-decimal n = digits_onto-read (suc n) n [] (omega arith)
