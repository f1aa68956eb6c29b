-- ===== src/ListHead/Splice.antt =====
-- Traversal and splicing.
use thirft_proxy.Prelude.{ℕ, zero, suc, ◌≡◌, ◌<◌, List, [], ◌∷◌, some, arith, length, NotIn}
use thirft_proxy.ListHead.{Links, list_for_each}
use thirft_proxy.ListHead.Ring.{Chain, IsRing}

Chain-list_for_each :
    (fuel : ℕ) (s : Links) (p : ℕ) (xs : List ℕ) (q : ℕ)
    → length xs < fuel
    → NotIn q xs
    → Chain s p xs q
    → list_for_each fuel (s.next p) q s ≡ some xs
unfolding list_for_each
Chain-list_for_each zero s p xs q h o c = absurd (omega arith)
Chain-list_for_each (suc fuel) s p [] q h o c = ground arith
Chain-list_for_each (suc fuel) s p (x ∷ xs) q h o c =
    rw c.0 (ground (arith, Chain-list_for_each fuel s x xs q (omega arith) o.1 c.2))

-- The loop over a well-formed list ends and visits its nodes in order.
pub list_for_each_visits :
    (fuel : ℕ) (s : Links) (head : ℕ) (xs : List ℕ)
    → length xs < fuel
    → IsRing s head xs
    → list_for_each fuel (s.next head) head s ≡ some xs
list_for_each_visits fuel s head xs h r =
    Chain-list_for_each fuel s head xs head h r.distinct.0 r.chain
