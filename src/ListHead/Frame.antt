-- ===== src/ListHead/Frame.antt =====
-- Two lists that share no node: an operation on one leaves the other as it is.
use thirft_proxy.Prelude.{ℕ, ◌≡◌, ◌∙◌, List, [], ◌∷◌, ◌++◌, arith, NotIn, NotIn-left, NotIn-right}
use thirft_proxy.ListHead.{
  Links, list_add_tail, list_add_between, list_del_init, list_del_between, init_list_head,
}
use thirft_proxy.ListHead.Ring.{Chain, IsRing, Chain-split, prev-ne, next-ne}

-- `t` has the pointers of `s` at every node outside `own`.
abbrev pub SameOutside : List ℕ → Links → Links → Type 0
SameOutside own s t = (a : ℕ) → NotIn a own → (t.next a ≡ s.next a) × (t.prev a ≡ s.prev a)

abbrev pub Disjoint : List ℕ → List ℕ → Type 0
Disjoint [] ys = Unit {0}
Disjoint (x ∷ xs) ys = NotIn x ys × Disjoint xs ys

Chain-frame :
    (s t : Links) (own : List ℕ) (p : ℕ) (xs : List ℕ) (q : ℕ)
    → SameOutside own s t
    → NotIn p own
    → Disjoint xs own
    → NotIn q own
    → Chain s p xs q
    → Chain t p xs q
Chain-frame s t own p [] q same np d nq c = ((same p np).0 ∙ c.0, (same q nq).1 ∙ c.1)
Chain-frame s t own p (x ∷ xs) q same np d nq c =
    ((same p np).0 ∙ c.0, (same x d.0).1 ∙ c.1, Chain-frame s t own x xs q same d.0 d.1 nq c.2)

pub IsRing-frame :
    (s t : Links) (own : List ℕ) (head : ℕ) (xs : List ℕ)
    → SameOutside own s t
    → Disjoint (head ∷ xs) own
    → IsRing s head xs
    → IsRing t head xs
IsRing-frame s t own head xs same d r = record {
  chain = Chain-frame s t own head xs head same d.0 d.1 d.0 r.chain;
  distinct = r.distinct;
}

pub init_list_head-SameOutside : (s : Links) (a : ℕ) → SameOutside (a ∷ []) s (init_list_head a s)
unfolding init_list_head
init_list_head-SameOutside s a b h = ground (arith, h.0)

pub list_add_tail-SameOutside :
    (s : Links) (n head : ℕ) (xs : List ℕ)
    → IsRing s head xs
    → SameOutside (n ∷ head ∷ xs) s (list_add_tail n head s)
unfolding list_add_tail list_add_between
list_add_tail-SameOutside s n head xs r b h =
    ground (arith, h.0, h.1.0, prev-ne s head xs head b h.1.0 h.1.1 r.chain)

pub list_del_init-SameOutside :
    (s : Links) (head : ℕ) (xs : List ℕ) (e : ℕ) (ys : List ℕ)
    → IsRing s head (xs ++ e ∷ ys)
    → SameOutside (head ∷ xs ++ e ∷ ys) s (list_del_init e s)
unfolding list_del_init list_del_between init_list_head
list_del_init-SameOutside s head xs e ys r b h =
    let (c, d) = Chain-split s head xs e ys head r.chain in
    let at_e = NotIn-right b xs (e ∷ ys) h.1 in
    ground (
      arith,
      at_e.0,
      prev-ne s head xs e b h.0 (NotIn-left b xs (e ∷ ys) h.1) c,
      next-ne s e ys head b h.0 at_e.1 d,
    )
