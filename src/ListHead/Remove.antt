-- ===== src/ListHead/Remove.antt =====
-- Removal: `list_del_init` takes out one node and leaves it a list of its own.
use thirft_proxy.Prelude.{
  ℕ, ◌≡◌, ◌≢◌, sym, List, [], ◌∷◌, ◌++◌, arith, NotIn, Distinct, NotIn-left, NotIn-right,
  Distinct-drop, NotIn-append, NotIn-eq, ◌∙◌,
}
use thirft_proxy.ListHead.{Links, list_del_init, list_del_between, init_list_head}
use thirft_proxy.ListHead.Ring.{
  Chain, IsRing, Chain-set_next, Chain-set_prev, Chain-split, prev-ne, next-ne,
}

Chain-relink :
    (s : Links) (p : ℕ) (xs : List ℕ) (e : ℕ) (ys : List ℕ) (q : ℕ)
    → Distinct (p ∷ xs ++ e ∷ ys)
    → NotIn q (xs ++ e ∷ ys)
    → Chain s p xs e
    → Chain s e ys q
    → Chain (list_del_between (s.prev e) (s.next e) s) p (xs ++ ys) q
unfolding list_del_between
Chain-relink s p [] e [] q d o c b = (ground arith, ground arith)
Chain-relink s p [] e (y ∷ ys) q d o c b = (
  ground arith,
  ground arith,
  Chain-set_next _ (s.prev e) (s.next e) y ys q (λ h. d.0.1.0 (sym c.1 ∙ h))
      (NotIn-eq (s.prev e) p ys c.1 d.0.1.1)
      (Chain-set_prev s (s.next e) (s.prev e) y ys q (λ h. o.1.0 (sym h ∙ b.0))
        (NotIn-eq (s.next e) y ys b.0 d.1.1.0) b.2),
)
Chain-relink s p (x ∷ xs) e ys q d o c b = (
  ground (arith, prev-ne s x xs e p d.0.0 (NotIn-left p xs (e ∷ ys) d.0.1) c.2),
  ground (arith, next-ne s e ys q x (λ h. o.0 (sym h)) (NotIn-right x xs (e ∷ ys) d.1.0).1 b),
  Chain-relink s x xs e ys q d.1 o.1 c.2 b,
)

Chain-init_list_head :
    (s : Links) (a p : ℕ) (xs : List ℕ) (q : ℕ)
    → a ≢ p
    → a ≢ q
    → NotIn a xs
    → Chain s p xs q
    → Chain (init_list_head a s) p xs q
unfolding init_list_head
Chain-init_list_head s a p xs q ap aq ax c =
    Chain-set_prev _ a a p xs q aq ax (Chain-set_next s a a p xs q ap ax c)

pub init_list_head-IsRing : (s : Links) (a : ℕ) → IsRing (init_list_head a s) a []
unfolding init_list_head
init_list_head-IsRing s a = record { chain = (ground arith, ground arith); distinct = (tt, tt) }

-- `list_del_init` of a member removes just that node, keeps the order of the others, and leaves
-- the node an empty list.
pub list_del_init-IsRing :
    (s : Links) (head : ℕ) (xs : List ℕ) (e : ℕ) (ys : List ℕ)
    → IsRing s head (xs ++ e ∷ ys)
    → IsRing (list_del_init e s) head (xs ++ ys) × IsRing (list_del_init e s) e []
unfolding list_del_init
list_del_init-IsRing s head xs e ys r =
    let (el, er, rest) = Distinct-drop e xs ys r.distinct.1 in
    let eh : e ≢ head = λ h. (NotIn-right head xs (e ∷ ys) r.distinct.0).0 (sym h) in
    let (c, b) = Chain-split s head xs e ys head r.chain in
    (
      record {
        chain =
            Chain-init_list_head _ e head (xs ++ ys) head eh eh (NotIn-append e xs ys el er)
              (Chain-relink s head xs e ys head r.distinct r.distinct.0 c b);
        distinct = (
          NotIn-append head xs ys (NotIn-left head xs (e ∷ ys) r.distinct.0)
              (NotIn-right head xs (e ∷ ys) r.distinct.0).1,
          rest,
        );
      },
      init_list_head-IsRing _ e,
    )

-- On a node that is a list of its own it changes no pointer.
pub list_del_init_alone :
    (s : Links) (e a : ℕ)
    → IsRing s e []
    → ((list_del_init e s).next a ≡ s.next a) × ((list_del_init e s).prev a ≡ s.prev a)
unfolding list_del_init list_del_between init_list_head
list_del_init_alone s e a r = ground (arith, r.chain)
