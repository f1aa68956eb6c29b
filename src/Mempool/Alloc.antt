-- ===== src/Mempool/Alloc.antt =====
-- `mempool_alloc` as a whole.
use thirft_proxy.Prelude.{
  ℕ, ◌+◌, ◌*◌, ◌^◌, ◌<◌, ◌≡◌, ◌≢◌, refl, ◌⊎◌, inl, inr, some, List, [], ◌∷◌, arith, length, All,
  Bool-cases, ◌==◌,
}
use thirft_proxy.Mempool.{Memory, store, MemPool, bump, mempool_alloc}
use thirft_proxy.Mempool.Layout.{Apart}
use thirft_proxy.Mempool.Invariant.{IsPool}
use thirft_proxy.Mempool.Steps.{bump-IsPool, new_block-IsPool, reuse-IsPool, counted_up}

-- What a successful allocation leaves: the item now belongs to the caller.
pub record Gives (item : ℕ) (mem : Memory) (p : MemPool) (size : ℕ) (live : List ℕ) : Type 0 where
  pub older : List ℕ
  pub free : List ℕ
  pub ne_null : item ≢ 0
  pub same_size : p.item_size ≡ size
  pub pool : IsPool mem p older free (item ∷ live)

abbrev Allocates : ℕ → Memory → MemPool → List ℕ → List ℕ → Type 0
Allocates block mem p live free =
    ((block ≡ 0) × (free ≡ []) × (mempool_alloc block mem (some p) ≡ (0, mem, some p)))
    ⊎ ((item : ℕ) × (mem' : Memory) × (q : MemPool) × (mempool_alloc block mem (some p)
          ≡ (item, mem', some q))
        × Gives item mem' q p.item_size live)

module _ {mem : Memory} {p : MemPool} {older live : List ℕ} (block : ℕ) where
  alloc_empty :
      IsPool mem p older [] live
      → length live + 1 < 2 ^ 31
      → (block ≢ 0 → All (Apart p.alloc_size block) (p.alloc_ptr ∷ older))
      → Allocates block mem p live []
  unfolding mempool_alloc
  alloc_empty v few fresh = elim (Bool-cases (p.alloc_pool_pos == p.total_alloc_item)) [
    | inr space ↦ inr (
      p.alloc_ptr + 8 + p.item_size * p.alloc_pool_pos,
      mem,
      counted_up (bump mem p).2,
      ground (arith, v.reuse, space),
      record {
        older = older;
        free = [];
        ne_null = omega arith;
        same_size = refl;
        pool = bump-IsPool v (ground (arith, space, v.within)) few;
      },
    )
    | inl full ↦ elim (Bool-cases (block == 0)) [
      | inl failed ↦ inl (ground (arith, failed), refl, ground (arith, v.reuse, full, failed))
      | inr given ↦
          let nz : block ≢ 0 = ground (arith, given) in
          let q : MemPool = record p { alloc_ptr = block; alloc_pool_pos = 0 } in
          inr (
            block + 8 + p.item_size * 0,
            store block p.alloc_ptr mem,
            counted_up (bump (store block p.alloc_ptr mem) q).2,
            ground (arith, v.reuse, full, given),
            record {
              older = p.alloc_ptr ∷ older;
              free = [];
              ne_null = omega arith;
              same_size = refl;
              pool = bump-IsPool (new_block-IsPool block v nz (fresh nz)) v.some_item few;
            },
          )
    ]
  ]

  alloc_reuse :
      (x : ℕ) (free : List ℕ)
      → IsPool mem p older (x ∷ free) live
      → length live + 1 < 2 ^ 31
      → Allocates block mem p live (x ∷ free)
  unfolding mempool_alloc
  alloc_reuse x free v few = inr (
    x,
    mem,
    counted_up (record p { reuse_ptr = mem p.reuse_ptr }),
    ground (arith, v.reuse),
    record {
      older = older;
      free = free;
      ne_null = v.reuse.1;
      same_size = refl;
      pool = reuse-IsPool x free v few;
    },
  )

  -- On a well-formed pool, if `malloc` returns null or a block apart from the others, the pool gives
  -- out an item, and stays well-formed with that item among the live ones: so it shares no byte with
  -- any live or free item, and lies in the payload of a block. It returns null, unchanged, only where
  -- nothing is free and `malloc` returned null.
  pub mempool_alloc-IsPool :
      (free : List ℕ)
      → IsPool mem p older free live
      → length live + 1 < 2 ^ 31
      → (block ≢ 0 → All (Apart p.alloc_size block) (p.alloc_ptr ∷ older))
      → ((block ≡ 0) × (free ≡ []) × (mempool_alloc block mem (some p) ≡ (0, mem, some p)))
        ⊎ ((item : ℕ) × (mem' : Memory) × (q : MemPool) × (mempool_alloc block mem (some p)
              ≡ (item, mem', some q))
            × Gives item mem' q p.item_size live)
  mempool_alloc-IsPool [] v few fresh = alloc_empty v few fresh
  mempool_alloc-IsPool (x ∷ free) v few fresh = alloc_reuse x free v few
