-- ===== src/Mempool/Free.antt =====
-- `mempool_free` and `mempool_destroy`.
use thirft_proxy.Prelude.{
  ℕ, zero, suc, ◌+◌, ◌-◌, ◌*◌, ◌%◌, ◌^◌, ◌≤◌, ◌<◌, ◌≡◌, ◌≢◌, refl, sym, subst, ◌⊎◌, inl, inr, true,
  none, some, List, [], ◌∷◌, ◌++◌, arith, length, length-append, All, append_assoc, NotIn-left,
}
use thirft_proxy.Mempool.{
  Memory, store, MemPool, mempool_alloc, mempool_free, mempool_destroy, free_blocks,
}
use thirft_proxy.Mempool.Layout.{
  AllApart, Held, Stack, Stack-store, All-take, AllApart-take, NotIn-of_Apart, Held-NotIn,
  Held-ne_zero,
}
use thirft_proxy.Mempool.Invariant.{Placed, IsPool}

module _ {mem : Memory} {p : MemPool} {older free : List ℕ} where
  -- Every item lies in one of the blocks.
  item-Held :
      (live : List ℕ) (x : ℕ)
      → IsPool mem p older free live
      → Placed p older x
      → Held p.item_size p.alloc_size x (p.alloc_ptr ∷ older)
  item-Held live x v (inl w) =
      let m : p.item_size * p.alloc_pool_pos ≤ p.item_size * p.total_alloc_item =
        grind (arith, v.within) in
      inl (w.0, omega (arith, w.1, v.fits))
  item-Held live x v (inr w) = inr w

  -- Freeing a live item keeps the pool well-formed: the item is the first of the free list, and the
  -- next allocation gives it out again without calling `malloc`.
  pub mempool_free-IsPool :
      (before : List ℕ) (x : ℕ) (after : List ℕ)
      → IsPool mem p older free (before ++ x ∷ after)
      → (mem' : Memory) × (q : MemPool) × (mempool_free x mem (some p) ≡ (true, mem', some q))
        × IsPool mem' q older (x ∷ free) (before ++ after)
        × ((block : ℕ) → (mempool_alloc block mem' (some q)).0 ≡ x)
  unfolding mempool_free mempool_alloc
  mempool_free-IsPool before x after v =
      let assoc = append_assoc free before (x ∷ after) in
      let assoc' = append_assoc free before after in
      let apart : AllApart p.item_size ((free ++ before) ++ x ∷ after) =
        subst (AllApart p.item_size) (sym assoc) v.items_apart in
      let placed : All (Placed p older) ((free ++ before) ++ x ∷ after) =
        subst (All (Placed p older)) (sym assoc) v.placed in
      let (x_apart, rest_apart) = AllApart-take p.item_size (free ++ before) x after apart in
      let (x_placed, rest_placed) = All-take (Placed p older) (free ++ before) x after placed in
      let held = item-Held (before ++ x ∷ after) x v x_placed in
      let pos : 0 < p.item_size = omega (arith, v.word) in
      let nz = Held-ne_zero p.item_size p.alloc_size x (p.alloc_ptr ∷ older) held in
      let others = NotIn-of_Apart p.item_size x ((free ++ before) ++ after) pos x_apart in
      let not_free = NotIn-left x free before (NotIn-left x (free ++ before) after others) in
      (
        store x p.reuse_ptr mem,
        record p { reuse_ptr = x; ref_count = (p.ref_count + 2 ^ 32 - 1) % 2 ^ 32 },
        refl,
        record {
          word = v.word;
          within = v.within;
          fits = v.fits;
          some_item = v.some_item;
          blocks =
              Stack-store mem x p.reuse_ptr p.alloc_ptr (p.alloc_ptr ∷ older)
                (Held-NotIn p.item_size p.alloc_size x (p.alloc_ptr ∷ older) pos v.blocks_apart
                  held)
                v.blocks;
          blocks_apart = v.blocks_apart;
          reuse = (
            refl,
            nz,
            subst (λ q. Stack (store x p.reuse_ptr mem) q free) (ground arith)
                (Stack-store mem x p.reuse_ptr p.reuse_ptr free not_free v.reuse),
          );
          items_apart = (
            subst (All (λ y. (x + p.item_size ≤ y) ⊎ (y + p.item_size ≤ x))) assoc' x_apart,
            subst (AllApart p.item_size) assoc' rest_apart,
          );
          placed = (x_placed, subst (All (Placed p older)) assoc' rest_placed);
          counted = omega (
            arith,
            v.counted,
            v.few,
            length-append before (x ∷ after),
            length-append before after,
          );
          few = omega (arith, v.few, length-append before (x ∷ after), length-append before after);
        },
        λ block. ground (arith, nz),
      )

free_blocks-Stack :
    (fuel : ℕ) (mem : Memory) (a : ℕ) (bs : List ℕ)
    → length bs < fuel
    → Stack mem a bs
    → free_blocks fuel a mem ≡ some bs
unfolding free_blocks
free_blocks-Stack zero mem a bs h s = absurd (omega arith)
free_blocks-Stack (suc fuel) mem a [] h s = ground (arith, s)
free_blocks-Stack (suc fuel) mem a (b ∷ bs) h s =
    rw s.0 (ground (arith, s.1, free_blocks-Stack fuel mem (mem b) bs (omega arith) s.2))

-- With fuel for every block, destroying a pool frees all of its blocks, each once, if no item is
-- live, and nothing if some item is.
pub mempool_destroy_lem :
    (fuel : ℕ) (mem : Memory) (p : MemPool) (older free live : List ℕ)
    → IsPool mem p older free live
    → length older + 1 < fuel
    → ((live ≡ []) → mempool_destroy fuel mem (some p) ≡ some (true, p.alloc_ptr ∷ older, none))
      × ((live ≢ []) → mempool_destroy fuel mem (some p) ≡ some (true, [], some p))
unfolding mempool_destroy
mempool_destroy_lem fuel mem p older free [] v h = (
  (λ e. ground (
    arith,
    v.counted,
    free_blocks-Stack fuel mem p.alloc_ptr (p.alloc_ptr ∷ older) (omega arith) v.blocks,
  )),
  λ e. absurd (e refl),
)
mempool_destroy_lem fuel mem p older free (x ∷ live) v h =
    ((λ e. cc), λ e. ground (arith, v.counted, v.few))
