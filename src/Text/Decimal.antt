-- ===== src/Text/Decimal.antt =====
-- `atoi` against `sprintf("%d")`.
use thirft_proxy.Prelude.{
  ℕ, zero, suc, ◌+◌, ◌-◌, ◌*◌, ◌/◌, ◌%◌, ◌^◌, ◌<◌, ◌≤◌, ◌≡◌, refl, ap, ◌∙◌, All, All-append, List,
  [], ◌∷◌, ◌++◌, arith, ltb, ltb→lt, inl, inr, Bool-cases,
}
use native.Mathlib.Numerals.{unary_clauses}
use thirft_proxy.Text.{is_digit, digits_value, positive, negative, signed, is_space, atoi}
use thirft_proxy.Handler.Text.{digits, decimal}

abbrev IsDigit : ℕ → Type 0
IsDigit c = (b'0' ≤ c) × (c ≤ b'9')

digits_value-snoc :
    (n d : ℕ) (s : List ℕ)
    → All IsDigit s
    → d < 10
    → digits_value n (s ++ (48 + d) ∷ []) ≡ digits_value n s * 10 + d
unfolding digits_value is_digit
digits_value-snoc n d [] h lt = ground arith
digits_value-snoc n d (c ∷ s) h lt =
    ground (arith, digits_value-snoc (n * 10 + (c - 48)) d s h.1 lt, h.0)

tenth_lt : (n p : ℕ) → n < p * 10 → n / 10 < p
tenth_lt n p h = omega arith

pub digits-IsDigit : (fuel n : ℕ) → All IsDigit (digits fuel n)
unfolding digits
digits-IsDigit zero n = tt
digits-IsDigit (suc fuel) n = elim (Bool-cases (ltb n 10)) [
  | inl e ↦ rw e ((omega arith, omega (arith, ltb→lt n 10 e)), tt)
  | inr e ↦ rw e (
      All-append IsDigit (digits fuel (n / 10)) ((48 + n % 10) ∷ []) (digits-IsDigit fuel (n / 10))
        ((omega arith, omega arith), tt))
]

-- Enough digits give the number back.
pub digits_value-digits : (fuel n : ℕ) → n < 10 ^ fuel → digits_value 0 (digits fuel n) ≡ n
unfolding digits digits_value is_digit
digits_value-digits zero n h = omega arith
digits_value-digits (suc fuel) n h = elim (Bool-cases (ltb n 10)) [
  | inl e ↦ rw e (ground arith)
  | inr e ↦ rw e (
      let shorter =
        digits_value-digits fuel (n / 10) (tenth_lt n (10 ^ fuel) (simp unary_clauses at h)) in
      omega (
        arith,
        shorter,
        digits_value-snoc 0 (n % 10) (digits fuel (n / 10)) (digits-IsDigit fuel (n / 10))
            (omega arith),
      ))
]

-- The digits are not empty, so the text of a number that is not negative starts with a digit.
pub signed-digits : (s : List ℕ) → All IsDigit s → signed s ≡ positive (digits_value 0 s)
unfolding signed positive digits_value
signed-digits [] h = refl
signed-digits (c ∷ s) h = ground (arith, h.0)

pub atoi-digits : (s : List ℕ) → All IsDigit s → atoi s ≡ positive (digits_value 0 s)
unfolding atoi is_space signed positive digits_value
atoi-digits [] h = refl
atoi-digits (c ∷ s) h = ground (arith, h.0)

positive_small : (n : ℕ) → n < 2 ^ 32 → positive n ≡ n
unfolding positive
positive_small n h = ground arith

pub atoi-digits_lem : (n : ℕ) → n < 2 ^ 32 → atoi (digits 10 n) ≡ n
atoi-digits_lem n h =
    atoi-digits (digits 10 n) (digits-IsDigit 10 n)
    ∙ (ap positive (digits_value-digits 10 n (omega arith)) ∙ positive_small n h)

negative_small : (n : ℕ) → 2 ^ 31 ≤ n → n < 2 ^ 32 → negative (2 ^ 32 - n) ≡ n
unfolding negative
negative_small n l h = ground arith

-- `atoi` reads back what `%d` prints, for each `int`.
pub atoi-decimal : (n : ℕ) → n < 2 ^ 32 → atoi (decimal n) ≡ n
unfolding decimal atoi is_space signed
atoi-decimal n h = elim (Bool-cases (ltb n (2 ^ 31))) [
  | inl e ↦ rw e (atoi-digits_lem n h)
  | inr e ↦ rw e (
      ap negative (digits_value-digits 10 (2 ^ 32 - n) (omega arith))
      ∙ negative_small n (ground arith) h)
]
