-- ===== src/Mempool/Steps.antt =====
-- `mempool_alloc` and `mempool_free` keep the invariant.
use thirft_proxy.Prelude.{
  ℕ, ◌+◌, ◌*◌, ◌%◌, ◌^◌, ◌≤◌, ◌<◌, ◌≢◌, refl, subst, inl, inr, List, [], ◌∷◌, arith, length, All,
}
use thirft_proxy.Mempool.{Memory, store, MemPool, bump}
use thirft_proxy.Mempool.Layout.{
  Apart, Stack, Stack-store, AllApart-put, All-put, NotIn-of_Apart, Held-Apart,
}
use thirft_proxy.Mempool.Invariant.{Placed, IsPool}

room : (z pos total size : ℕ) → pos < total → 8 + z * total ≤ size → 8 + z * pos + z ≤ size
room z pos total size h k = let m : z * (pos + 1) ≤ z * total = grind arith in omega arith

pub All-map : (P Q : ℕ → Type 0) (xs : List ℕ) → ((x : ℕ) → P x → Q x) → All P xs → All Q xs
All-map P Q [] f h = tt
All-map P Q (x ∷ xs) f h = (f x h.0, All-map P Q xs f h.1)

abbrev pub counted_up : MemPool → MemPool
counted_up q = record q { ref_count = (q.ref_count + 1) % 2 ^ 32 }

module _ {mem : Memory} {p : MemPool} {older live : List ℕ} where
  fresh_Apart :
      (free : List ℕ) (y : ℕ)
      → IsPool mem p older free live
      → p.alloc_pool_pos < p.total_alloc_item
      → Placed p older y
      → Apart p.item_size (p.alloc_ptr + 8 + p.item_size * p.alloc_pool_pos) y
  fresh_Apart free y v h (inl w) = inr (omega (arith, w.1))
  fresh_Apart free y v h (inr w) =
      Held-Apart p.item_size p.alloc_size p.alloc_ptr _ y older v.blocks_apart.0 (omega arith)
        (omega (arith, room p.item_size p.alloc_pool_pos p.total_alloc_item p.alloc_size h v.fits))
        w

  pub bump-IsPool :
      IsPool mem p older [] live
      → p.alloc_pool_pos < p.total_alloc_item
      → length live + 1 < 2 ^ 31
      → let (item, mem', q) = bump mem p in IsPool mem' (counted_up q) older [] (item ∷ live)
  bump-IsPool v h few = record {
    word = v.word;
    within = omega arith;
    fits = v.fits;
    some_item = v.some_item;
    blocks = v.blocks;
    blocks_apart = v.blocks_apart;
    reuse = v.reuse;
    items_apart = (All-map _ _ live (λ y. fresh_Apart [] y v h) v.placed, v.items_apart);
    placed = (inl (omega arith, omega arith), All-map _ _ live (λ y. grow y) v.placed);
    counted = omega (arith, v.counted);
    few = omega arith;
  }
    where
      grow :
          (y : ℕ)
          → Placed p older y
          → Placed
              (record p {
                alloc_pool_pos = p.alloc_pool_pos + 1;
                ref_count = (p.ref_count + 1) % 2 ^ 32;
              })
              older
              y
      grow y (inl w) = inl (w.0, omega (arith, w.1))
      grow y (inr w) = inr w

  pub new_block-IsPool :
      (block : ℕ)
      → IsPool mem p older [] live
      → block ≢ 0
      → All (Apart p.alloc_size block) (p.alloc_ptr ∷ older)
      → IsPool
          (store block p.alloc_ptr mem)
          (record p { alloc_ptr = block; alloc_pool_pos = 0 })
          (p.alloc_ptr ∷ older)
          []
          live
  new_block-IsPool block v nz apart = record {
    word = v.word;
    within = omega arith;
    fits = v.fits;
    some_item = v.some_item;
    blocks = (
      refl,
      nz,
      subst (λ q. Stack (store block p.alloc_ptr mem) q (p.alloc_ptr ∷ older)) (ground arith)
          (Stack-store mem block p.alloc_ptr p.alloc_ptr (p.alloc_ptr ∷ older)
            (NotIn-of_Apart p.alloc_size block (p.alloc_ptr ∷ older) (omega (arith, v.fits)) apart)
            v.blocks),
    );
    blocks_apart = (apart, v.blocks_apart);
    reuse = v.reuse;
    items_apart = v.items_apart;
    placed = All-map _ _ live (λ y. move y) v.placed;
    counted = v.counted;
    few = v.few;
  }
    where
      move :
          (y : ℕ)
          → Placed p older y
          → Placed (record p { alloc_ptr = block; alloc_pool_pos = 0 }) (p.alloc_ptr ∷ older) y
      move y (inl w) =
          let m : p.item_size * p.alloc_pool_pos ≤ p.item_size * p.total_alloc_item =
            grind (arith, v.within) in
          inr (inl (w.0, omega (arith, w.1, v.fits)))
      move y (inr w) = inr (inr w)

  pub reuse-IsPool :
      (x : ℕ) (free : List ℕ)
      → IsPool mem p older (x ∷ free) live
      → length live + 1 < 2 ^ 31
      → IsPool mem (counted_up (record p { reuse_ptr = mem p.reuse_ptr })) older free (x ∷ live)
  reuse-IsPool x free v few = record {
    word = v.word;
    within = v.within;
    fits = v.fits;
    some_item = v.some_item;
    blocks = v.blocks;
    blocks_apart = v.blocks_apart;
    reuse = rw (v.reuse.0) v.reuse.2;
    items_apart = AllApart-put p.item_size free x live v.items_apart.0 v.items_apart.1;
    placed = All-put (Placed p older) free x live v.placed.0 v.placed.1;
    counted = omega (arith, v.counted);
    few = omega arith;
  }
