-- ===== src/Handler/Text.antt =====
-- The texts that the handler takes out of the client's buffer, and `sprintf("%d")`.
use thirft_proxy.Prelude.{
  Outcome, done, fault, ◌>>=◌, ℕ, zero, suc, ◌+◌, ◌-◌, ◌/◌, ◌%◌, ◌^◌, List, [], ◌∷◌, ◌++◌, ◌==◌,
  ltb, if◌then◌else◌,
}

-- The bytes from `off` up to a 0, of which `room` are in the buffer: behind it the read is out of
-- bounds.
unfoldable pub c_string : ℕ → ℕ → (ℕ → ℕ) → Outcome (List ℕ)
c_string zero off buf = fault
c_string (suc room) off buf =
    let rest = c_string room (off + 1) buf in
    if buf off == 0 then done [] else (rest >>= λ s. done (buf off ∷ s))

-- The `n` bytes from `off`.
unfoldable pub slice : ℕ → ℕ → (ℕ → ℕ) → List ℕ
slice zero off buf = []
slice (suc n) off buf = buf off ∷ slice n (off + 1) buf

-- The decimal digits; a 32-bit number has at most ten.
unfoldable pub digits : ℕ → ℕ → List ℕ
digits zero n = []
digits (suc fuel) n =
    let front = digits fuel (n / 10) in
    if ltb n 10 then (48 + n) ∷ [] else front ++ (48 + n % 10) ∷ []

-- `%d` of an `int`, given as its bit pattern.
unfoldable pub decimal : ℕ → List ℕ
unfolding digits
decimal n = if ltb n (2 ^ 31) then digits 10 n else b'-' ∷ digits 10 (2 ^ 32 - n)
