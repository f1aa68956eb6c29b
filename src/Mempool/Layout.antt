-- ===== src/Mempool/Layout.antt =====
-- Where items and blocks lie, and the chains through their first words.
use thirft_proxy.Prelude.{
  ℕ, ◌+◌, ◌≤◌, ◌<◌, ◌≡◌, ◌≢◌, ◌⊎◌, inl, inr, List, [], ◌∷◌, ◌++◌, arith, All, NotIn,
}
use thirft_proxy.Mempool.{Memory, store}

-- Two stretches of `z` bytes that share none.
abbrev pub Apart : ℕ → ℕ → ℕ → Type 0
Apart z a b = (a + z ≤ b) ⊎ (b + z ≤ a)

abbrev pub AllApart : ℕ → List ℕ → Type 0
AllApart z [] = Unit {0}
AllApart z (x ∷ xs) = All (Apart z x) xs × AllApart z xs

-- `z` bytes at `x` in the payload of the block at `o`, whose first `size` bytes are in use.
abbrev pub Within : ℕ → ℕ → ℕ → ℕ → Type 0
Within z size x o = (o + 8 ≤ x) × (x + z ≤ o + size)

-- In one of the blocks.
abbrev pub Held : ℕ → ℕ → ℕ → List ℕ → Type 0
Held z size x [] = ⊥
Held z size x (o ∷ os) = Within z size x o ⊎ Held z size x os

-- From `p` the first words lead through `xs` to null.
abbrev pub Stack : Memory → ℕ → List ℕ → Type 0
Stack mem p [] = p ≡ 0
Stack mem p (x ∷ xs) = (p ≡ x) × (x ≢ 0) × Stack mem (mem x) xs

pub Stack-store :
    (mem : Memory) (a v p : ℕ) (xs : List ℕ)
    → NotIn a xs
    → Stack mem p xs
    → Stack (store a v mem) p xs
Stack-store mem a v p [] h s = s
Stack-store mem a v p (x ∷ xs) h s =
    let same : store a v mem x ≡ mem x = ground (arith, h.0) in
    (s.0, s.1, rw same (Stack-store mem a v (mem x) xs h.1 s.2))

-- Two memories that agree on the members have the same chain.
pub Stack-same :
    (mem mem' : Memory) (p : ℕ) (xs : List ℕ)
    → All (λ x. mem' x ≡ mem x) xs
    → Stack mem p xs
    → Stack mem' p xs
Stack-same mem mem' p [] h s = s
Stack-same mem mem' p (x ∷ xs) h s = (s.0, s.1, rw h.0 (Stack-same mem mem' (mem x) xs h.1 s.2))

Apart-symm : (z a b : ℕ) → Apart z a b → Apart z b a
Apart-symm z a b (inl h) = inr h
Apart-symm z a b (inr h) = inl h

pub All-take {ℓ} :
    (P : ℕ → Type ℓ) (xs : List ℕ) (x : ℕ) (ys : List ℕ)
    → All P (xs ++ x ∷ ys)
    → P x × All P (xs ++ ys)
All-take P [] x ys h = h
All-take P (a ∷ xs) x ys h = let (px, rest) = All-take P xs x ys h.1 in (px, (h.0, rest))

pub All-put {ℓ} :
    (P : ℕ → Type ℓ) (xs : List ℕ) (x : ℕ) (ys : List ℕ)
    → P x
    → All P (xs ++ ys)
    → All P (xs ++ x ∷ ys)
All-put P [] x ys px h = (px, h)
All-put P (a ∷ xs) x ys px h = (h.0, All-put P xs x ys px h.1)

-- A member may be moved to the front, and the first item to any place.
pub AllApart-take :
    (z : ℕ) (xs : List ℕ) (x : ℕ) (ys : List ℕ)
    → AllApart z (xs ++ x ∷ ys)
    → All (Apart z x) (xs ++ ys) × AllApart z (xs ++ ys)
AllApart-take z [] x ys h = h
AllApart-take z (a ∷ xs) x ys h =
    let (ax, rest) = All-take (Apart z a) xs x ys h.0 in
    let (all, apart) = AllApart-take z xs x ys h.1 in ((Apart-symm z a x ax, all), (rest, apart))

pub AllApart-put :
    (z : ℕ) (xs : List ℕ) (x : ℕ) (ys : List ℕ)
    → All (Apart z x) (xs ++ ys)
    → AllApart z (xs ++ ys)
    → AllApart z (xs ++ x ∷ ys)
AllApart-put z [] x ys h k = (h, k)
AllApart-put z (a ∷ xs) x ys h k =
    (All-put (Apart z a) xs x ys (Apart-symm z x a h.0) k.0, AllApart-put z xs x ys h.1 k.1)

pub NotIn-of_Apart : (z x : ℕ) (xs : List ℕ) → 0 < z → All (Apart z x) xs → NotIn x xs
NotIn-of_Apart z x [] h a = tt
NotIn-of_Apart z x (y ∷ ys) h a = ((λ e. apart_ne z x y h a.0 e), NotIn-of_Apart z x ys h a.1)
  where
    apart_ne : (z x y : ℕ) → 0 < z → Apart z x y → x ≡ y → ⊥
    apart_ne z x y h a e = omega arith

-- What a block has is apart from all that the other blocks have.
pub Held-Apart :
    (z size b x y : ℕ) (os : List ℕ)
    → All (Apart size b) os
    → b + 8 ≤ x
    → x + z ≤ b + size
    → Held z size y os
    → Apart z x y
Held-Apart z size b x y [] a lo hi h = absurd h
Held-Apart z size b x y (o ∷ os) a lo hi (inl h) = omega (arith, a.0)
Held-Apart z size b x y (o ∷ os) a lo hi (inr h) = Held-Apart z size b x y os a.1 lo hi h

-- An item is not at the address of a block.
pub Held-ne_block :
    (z size b x : ℕ) (os : List ℕ) → 0 < z → All (Apart size b) os → Held z size x os → x ≢ b
Held-ne_block z size b x [] pos a h = absurd h
Held-ne_block z size b x (o ∷ os) pos a (inl h) = λ e. omega (arith, a.0)
Held-ne_block z size b x (o ∷ os) pos a (inr h) = Held-ne_block z size b x os pos a.1 h

pub Held-ne_zero : (z size x : ℕ) (os : List ℕ) → Held z size x os → x ≢ 0
Held-ne_zero z size x [] h = absurd h
Held-ne_zero z size x (o ∷ os) (inl h) = λ e. omega arith
Held-ne_zero z size x (o ∷ os) (inr h) = Held-ne_zero z size x os h

pub Held-NotIn :
    (z size x : ℕ) (os : List ℕ) → 0 < z → AllApart size os → Held z size x os → NotIn x os
Held-NotIn z size x [] pos a h = absurd h
Held-NotIn z size x (o ∷ os) pos a (inl h) =
    (omega arith, within_other x o os (omega arith) (omega arith) a.0)
  where
    within_other :
        (x o : ℕ) (os : List ℕ) → o ≤ x → x < o + size → All (Apart size o) os → NotIn x os
    within_other x o [] lo hi a = tt
    within_other x o (q ∷ os) lo hi a = (λ e. omega (arith, a.0, e), within_other x o os lo hi a.1)
Held-NotIn z size x (o ∷ os) pos a (inr h) =
    (Held-ne_block z size o x os pos a.0 h, Held-NotIn z size x os pos a.1 h)
