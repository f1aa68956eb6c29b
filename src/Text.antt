-- ===== src/Text.antt =====
-- The string functions of the C library that the configuration reads texts with, on lists of bytes.
use thirft_proxy.Prelude.{
  ℕ, ◌+◌, ◌-◌, ◌*◌, ◌%◌, ◌^◌, ◌≡◌, ◌↔◌, refl, Bool, true, false, ◌&&◌, ◌||◌, List, [], ◌∷◌, arith,
  ◌==◌, ltb, leb, if◌then◌else◌,
}
pub mod Codes
pub mod Decimal

abbrev pub Bytes : Type 0
Bytes = List ℕ

-- Equality of two strings.
unfoldable pub same : Bytes → Bytes → Bool
same [] [] = true
same [] (d ∷ t) = false
same (c ∷ s) [] = false
same (c ∷ s) (d ∷ t) = (c == d) && same s t

pub same_refl : (s : Bytes) → same s s ≡ true
unfolding same
same_refl [] = refl
same_refl (c ∷ s) = ground (arith, same_refl s)

pub same-eq : (s t : Bytes) → same s t ≡ true → s ≡ t
unfolding same
same-eq [] [] e = refl
same-eq [] (d ∷ t) e = cc
same-eq (c ∷ s) [] e = cc
same-eq (c ∷ s) (d ∷ t) e = ground (arith, same-eq s t)

unfoldable pub is_space : ℕ → Bool
is_space c = (c == 32) || (leb 9 c && leb c 13)

unfoldable pub is_digit : ℕ → Bool
is_digit c = leb b'0' c && leb c b'9'

-- The number in the digits at the front.
unfoldable pub digits_value : ℕ → Bytes → ℕ
unfolding is_digit
digits_value n [] = n
digits_value n (c ∷ s) = if is_digit c then digits_value (n * 10 + (c - b'0')) s else n

-- `atoi` is `strtol`, which stops at the ends of a 64-bit `long`, cut to an `int`.
unfoldable pub positive : ℕ → ℕ
positive n = (if ltb n (2 ^ 63) then n else 2 ^ 63 - 1) % 2 ^ 32

unfoldable pub negative : ℕ → ℕ
negative n = (2 ^ 64 - (if ltb n (2 ^ 63) then n else 2 ^ 63)) % 2 ^ 32

unfoldable pub signed : Bytes → ℕ
unfolding digits_value positive negative
signed [] = 0
signed (c ∷ s) =
    if c == b'-'
    then negative (digits_value 0 s)
    else if c == b'+'
    then positive (digits_value 0 s)
    else positive (digits_value 0 (c ∷ s))

unfoldable pub atoi : Bytes → ℕ
unfolding signed is_space
atoi [] = 0
atoi (c ∷ s) = if is_space c then atoi s else signed (c ∷ s)
