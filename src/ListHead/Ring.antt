-- ===== src/ListHead/Ring.antt =====
-- What the links of a well-formed list say, and that `list.h` keeps it.
use thirft_proxy.Prelude.{ℕ, ◌≡◌, ◌≢◌, List, [], ◌∷◌, ◌++◌, arith, NotIn, Distinct}
use thirft_proxy.ListHead.{Links, set_next, set_prev}

-- From `p` the `next` pointers lead through `xs` to `q`, and the `prev` pointers lead back.
abbrev pub Chain : Links → ℕ → List ℕ → ℕ → Type 0
Chain s p [] q = (s.next p ≡ q) × (s.prev q ≡ p)
Chain s p (x ∷ xs) q = (s.next p ≡ x) × (s.prev x ≡ p) × Chain s x xs q

-- The list at `head` holds the nodes `xs`, in order, each once.
pub record IsRing (s : Links) (head : ℕ) (xs : List ℕ) : Type 0 where
  pub chain : Chain s head xs head
  pub distinct : Distinct (head ∷ xs)

pub Chain-set_next :
    (s : Links) (a v p : ℕ) (xs : List ℕ) (q : ℕ)
    → a ≢ p
    → NotIn a xs
    → Chain s p xs q
    → Chain (set_next a v s) p xs q
Chain-set_next s a v p [] q h k c = ground arith
Chain-set_next s a v p (x ∷ xs) q h k c =
    (ground arith, c.1, Chain-set_next s a v x xs q k.0 k.1 c.2)

pub Chain-set_prev :
    (s : Links) (a v p : ℕ) (xs : List ℕ) (q : ℕ)
    → a ≢ q
    → NotIn a xs
    → Chain s p xs q
    → Chain (set_prev a v s) p xs q
Chain-set_prev s a v p [] q h k c = ground arith
Chain-set_prev s a v p (x ∷ xs) q h k c = (c.0, ground arith, Chain-set_prev s a v x xs q h k.1 c.2)

pub Chain-append :
    (s : Links) (p : ℕ) (xs : List ℕ) (x : ℕ) (ys : List ℕ) (q : ℕ)
    → Chain s p xs x
    → Chain s x ys q
    → Chain s p (xs ++ x ∷ ys) q
Chain-append s p [] x ys q c d = (c.0, c.1, d)
Chain-append s p (y ∷ xs) x ys q c d = (c.0, c.1, Chain-append s y xs x ys q c.2 d)

pub Chain-split :
    (s : Links) (p : ℕ) (xs : List ℕ) (x : ℕ) (ys : List ℕ) (q : ℕ)
    → Chain s p (xs ++ x ∷ ys) q
    → Chain s p xs x × Chain s x ys q
Chain-split s p [] x ys q c = ((c.0, c.1), c.2)
Chain-split s p (y ∷ xs) x ys q c = let (l, r) = Chain-split s y xs x ys q c.2 in ((c.0, c.1, l), r)

-- The pointers at the ends of a chain stay within the chain.
pub prev-ne :
    (s : Links) (p : ℕ) (xs : List ℕ) (q a : ℕ) → a ≢ p → NotIn a xs → Chain s p xs q → s.prev q ≢ a
prev-ne s p [] q a h k c = ground arith
prev-ne s p (x ∷ xs) q a h k c = prev-ne s x xs q a k.0 k.1 c.2

pub next-ne :
    (s : Links) (p : ℕ) (xs : List ℕ) (q a : ℕ) → a ≢ q → NotIn a xs → Chain s p xs q → s.next p ≢ a
next-ne s p [] q a h k c = ground arith
next-ne s p (x ∷ xs) q a h k c = ground arith
