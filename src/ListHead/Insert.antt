-- ===== src/ListHead/Insert.antt =====
-- Insertion: `list_add` puts a node first, `list_add_tail` last.
use thirft_proxy.Prelude.{
  ℕ, ◌≢◌, sym, List, [], ◌∷◌, ◌++◌, arith, NotIn, Distinct, NotIn-append, NotIn-eq, Distinct-snoc,
  ◌∙◌,
}
use thirft_proxy.ListHead.{Links, list_add, list_add_tail, list_add_between}
use thirft_proxy.ListHead.Ring.{Chain, IsRing, Chain-set_next, Chain-set_prev, prev-ne}

Chain-insert_last :
    (s : Links) (n p : ℕ) (xs : List ℕ) (q : ℕ)
    → n ≢ p
    → NotIn n xs
    → n ≢ q
    → Distinct (p ∷ xs)
    → NotIn q xs
    → Chain s p xs q
    → Chain (list_add_between n (s.prev q) q s) p (xs ++ n ∷ []) q
unfolding list_add_between
Chain-insert_last s n p [] q np nx nq d o c =
    (ground arith, ground arith, (ground arith, ground arith))
Chain-insert_last s n p (x ∷ xs) q np nx nq d o c = (
  ground (arith, prev-ne s x xs q p),
  ground arith,
  Chain-insert_last s n x xs q nx.0 nx.1 nq d.1 o.1 c.2,
)

-- `list_add_tail` of a node that is not in the list appends it.
pub list_add_tail-IsRing :
    (s : Links) (n head : ℕ) (xs : List ℕ)
    → n ≢ head
    → NotIn n xs
    → IsRing s head xs
    → IsRing (list_add_tail n head s) head (xs ++ n ∷ [])
unfolding list_add_tail
list_add_tail-IsRing s n head xs nh nx r = record {
  chain = Chain-insert_last s n head xs head nh nx nh r.distinct r.distinct.0 r.chain;
  distinct = (
    NotIn-append head xs (n ∷ []) r.distinct.0 ((λ e. nh (sym e)), tt),
    Distinct-snoc n xs nx r.distinct.1,
  );
}

Chain-insert_first :
    (s : Links) (n p : ℕ) (xs : List ℕ) (q : ℕ)
    → n ≢ p
    → NotIn n xs
    → n ≢ q
    → Distinct (p ∷ xs)
    → NotIn q xs
    → Chain s p xs q
    → Chain (list_add_between n p (s.next p) s) p (n ∷ xs) q
unfolding list_add_between
Chain-insert_first s n p [] q np nx nq d o c =
    (ground arith, ground arith, (ground arith, ground arith))
Chain-insert_first s n p (x ∷ xs) q np nx nq d o c = (
  ground arith,
  ground arith,
  (
    ground arith,
    ground arith,
    Chain-set_next _ p n x xs q d.0.0 d.0.1 (
        Chain-set_prev _ n p x xs q nq nx.1 (
          Chain-set_next _ n (s.next p) x xs q nx.0 nx.1 (
            Chain-set_prev s (s.next p) n x xs q (λ h. o.0 (sym h ∙ c.0))
              (NotIn-eq (s.next p) x xs c.0 d.1.0) c.2))),
  ),
)

-- `list_add` of a node that is not in the list puts it in front.
pub list_add-IsRing :
    (s : Links) (n head : ℕ) (xs : List ℕ)
    → n ≢ head
    → NotIn n xs
    → IsRing s head xs
    → IsRing (list_add n head s) head (n ∷ xs)
unfolding list_add
list_add-IsRing s n head xs nh nx r = record {
  chain = Chain-insert_first s n head xs head nh nx nh r.distinct r.distinct.0 r.chain;
  distinct = (((λ e. nh (sym e)), r.distinct.0), (nx, r.distinct.1));
}
