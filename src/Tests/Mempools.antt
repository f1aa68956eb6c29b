-- ===== src/Tests/Mempools.antt =====
-- utils/mempool.cpp on a pool of 16-byte items in blocks of 40 bytes.
use thirft_proxy.Prelude.{ℕ, ◌≡◌, ◌≢◌, refl, ◌⊎◌, inl, true, none, some, List, [], ◌∷◌, arith}
use thirft_proxy.Mempool.{
  Memory, store, MemPool, mempool_create, mempool_alloc, mempool_free, mempool_destroy,
}
use thirft_proxy.Mempool.Sizes.{IsSized, mempool_create-IsSized}
use thirft_proxy.Mempool.Invariant.{IsPool}
use thirft_proxy.Mempool.Alloc.{Gives, mempool_alloc-IsPool}
use thirft_proxy.Mempool.Free.{mempool_free-IsPool, mempool_destroy_lem}

abbrev no_memory : Memory
no_memory a = 0

-- One block at 1000; the item at 1008 is live, the one at 1024 still unused.
abbrev pool : MemPool
pool = record {
  item_size = 16;
  alloc_size = 40;
  total_alloc_item = 2;
  reuse_ptr = 0;
  alloc_ptr = 1000;
  alloc_pool_pos = 1;
  ref_count = 1;
}

pool-IsPool : IsPool no_memory pool [] [] (1008 ∷ [])
pool-IsPool = record {
  word = omega arith;
  within = omega arith;
  fits = omega arith;
  some_item = omega arith;
  blocks = (refl, (λ e. omega arith), refl);
  blocks_apart = (tt, tt);
  reuse = refl;
  items_apart = (tt, tt);
  placed = (inl (omega arith, omega arith), tt);
  counted = refl;
  few = omega arith;
}

alloc_run : (mempool_alloc 2000 no_memory (some pool)).0 ≡ 1024
unfolding mempool_alloc
alloc_run = refl

mempool_create-IsSized_run :
    (p : MemPool) × (mempool_create 4096 4248 16777216 500 9000 no_memory
      ≡ (store 9000 0 no_memory, some p))
    × IsSized 4096 4248 16777216 p
mempool_create-IsSized_run =
    mempool_create-IsSized 4096 4248 16777216 500 9000 no_memory (omega arith) (omega arith)
      (omega arith) (omega arith) (omega arith) (omega arith)

mempool_alloc-IsPool_example :
    ((◌≡◌ {A = ℕ} 2000 0)
      × (◌≡◌ {A = List ℕ} [] [])
      × (mempool_alloc 2000 no_memory (some pool) ≡ (0, no_memory, some pool)))
    ⊎ ((item : ℕ) × (mem' : Memory) × (q : MemPool) × (mempool_alloc 2000 no_memory (some pool)
          ≡ (item, mem', some q))
        × Gives item mem' q 16 (1008 ∷ []))
mempool_alloc-IsPool_example =
    mempool_alloc-IsPool 2000 [] pool-IsPool (omega arith) (λ nz. (omega arith, tt))

mempool_free-IsPool_example :
    (mem' : Memory) × (q : MemPool) × (mempool_free 1008 no_memory (some pool)
      ≡ (true, mem', some q))
    × IsPool mem' q [] (1008 ∷ []) []
    × ((block : ℕ) → (mempool_alloc block mem' (some q)).0 ≡ 1008)
mempool_free-IsPool_example = mempool_free-IsPool [] 1008 [] pool-IsPool

mempool_destroy_lem_run :
    ((◌≡◌ {A = List ℕ} (1008 ∷ []) [])
      → mempool_destroy 3 no_memory (some pool) ≡ some (true, 1000 ∷ [], none))
    × ((◌≢◌ {A = List ℕ} (1008 ∷ []) [])
        → mempool_destroy 3 no_memory (some pool) ≡ some (true, [], some pool))
mempool_destroy_lem_run =
    mempool_destroy_lem 3 no_memory pool [] [] (1008 ∷ []) pool-IsPool (omega arith)
