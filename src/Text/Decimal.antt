-- ===== src/Text/Decimal.antt =====
-- The decimal text of a number reads back as the number.
use prism_rust_vivek.Prelude.{
  ℕ, zero, suc, ◌+◌, ◌-◌, ◌*◌, ◌/◌, ◌%◌, ◌<◌, ◌≤◌, ◌≡◌, ◌^◌, ◌∙◌, refl, true, false, [], ◌∷◌, ◌++◌,
  Option, none, some, Bool-cases, inl, inr, All, All-append, ltb, arith, ap,
}
use prism_rust_vivek.Text.{
  Text, decimal, decimal_fuel, digits, parse_int, nonneg, signed, to_double, round_to, finite,
  infinite,
}

abbrev IsNumeral : Text → Type 0
IsNumeral = All (λ c. (48 ≤ c) × (c ≤ 57))

abbrev shift : Option ℕ → ℕ → ℕ
shift none c = c - 48
shift (some n) c = n * 10 + (c - 48)

-- Reading a numeral and one more digit.
digits-append :
    (seen : Option ℕ) (s : Text) (c : ℕ)
    → IsNumeral s
    → 48 ≤ c
    → c ≤ 57
    → digits seen (s ++ c ∷ []) ≡ some (shift (digits seen s) c)
unfolding digits
digits-append none [] c h a b = ground arith
digits-append (some n) [] c h a b = ground arith
digits-append none (x ∷ s) c h a b = ground (arith, digits-append (some (x - 48)) s c h.1 a b)
digits-append (some n) (x ∷ s) c h a b =
    ground (arith, digits-append (some (n * 10 + (x - 48))) s c h.1 a b)

decimal_fuel-IsNumeral : (fuel n : ℕ) → IsNumeral (decimal_fuel fuel n)
unfolding decimal_fuel
decimal_fuel-IsNumeral zero n = tt
decimal_fuel-IsNumeral (suc fuel) n = elim (Bool-cases (ltb n 10)) [
  | inl small ↦ rw small (ground arith)
  | inr large ↦ rw large (
      All-append (λ c. (48 ≤ c) × (c ≤ 57)) (decimal_fuel fuel (n / 10)) ((48 + n % 10) ∷ [])
        (decimal_fuel-IsNumeral fuel (n / 10)) (omega arith))
]

digits-decimal_fuel : (fuel n : ℕ) → n < fuel → digits none (decimal_fuel fuel n) ≡ some n
unfolding decimal_fuel
digits-decimal_fuel zero n h = elim h [ ]
digits-decimal_fuel (suc fuel) n h = elim (Bool-cases (ltb n 10)) [
  | inl small ↦ rw small (unfold digits in ground arith)
  | inr large ↦ rw large (
      ground (
        arith,
        digits-append none (decimal_fuel fuel (n / 10)) (48 + n % 10)
            (decimal_fuel-IsNumeral fuel (n / 10)) (omega arith) (omega arith),
        digits-decimal_fuel fuel (n / 10),
      ))
]

pub digits-decimal : (n : ℕ) → digits none (decimal n) ≡ some n
unfolding decimal
digits-decimal n = digits-decimal_fuel (suc n) n (omega arith)

-- Two numbers with one decimal text are equal.
pub decimal-injective : (m n : ℕ) → decimal m ≡ decimal n → m ≡ n
decimal-injective m n h = cc (digits-decimal m, digits-decimal n, ap (digits none) h)

-- Numbers below 2 ^ 53 are doubles.
round_to-small : (fuel n : ℕ) → n < 2 ^ 53 → round_to (suc fuel) 1 n ≡ some n
unfolding round_to
round_to-small fuel n h =
    let low : n / 1 ≡ n = omega arith in
    let over : 2 * (n % 1) ≡ 0 = omega arith in
    let small : ltb n (2 ^ 53) ≡ true = ground arith in
    let whole : n * 1 ≡ n = omega arith in rw (low, over, small, whole) refl

to_double-eq : (n : ℕ) → to_double n ≡ finite (round_to 972 1 n)
unfolding to_double
to_double-eq n = refl

finite-small : (n : ℕ) → n < 2 ^ 53 → finite (some n) ≡ some n
finite-small n h = let fits : ltb n (2 ^ 1024) ≡ true = ground arith in rw fits refl

to_double-small : (n : ℕ) → n < 2 ^ 53 → to_double n ≡ some n
to_double-small n h = to_double-eq n ∙ ap finite (round_to-small 971 n h) ∙ finite-small n h

signed-eq :
    (n : ℕ)
    → signed false (some n) ≡ elim (to_double n) [ none ↦ infinite false | some d ↦ nonneg d ]
unfolding signed
signed-eq n = refl

signed-small : (n : ℕ) → n < 2 ^ 53 → signed false (some n) ≡ nonneg n
signed-small n h = rw (signed-eq n, to_double-small n h) refl

-- A text that begins with a digit is read with no sign.
parse_int-numeral :
    (s : Text) (n : ℕ) → IsNumeral s → digits none s ≡ some n → parse_int s ≡ signed false (some n)
unfolding parse_int
parse_int-numeral [] n h e = cc
parse_int-numeral (c ∷ s) n h e = ground arith

pub parse_int-decimal : (n : ℕ) → n < 2 ^ 53 → parse_int (decimal n) ≡ nonneg n
parse_int-decimal n small =
    parse_int-numeral (decimal n) n (unfold decimal in decimal_fuel-IsNumeral (suc n) n)
      (digits-decimal n)
    ∙ signed-small n small
