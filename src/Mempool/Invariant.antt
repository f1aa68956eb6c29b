-- ===== src/Mempool/Invariant.antt =====
-- The invariant of a pool. `blocks` are the blocks that it has from `malloc`, newest first, `free`
-- the items on its free list, and `live` those that callers hold.
use thirft_proxy.Prelude.{ℕ, ◌+◌, ◌*◌, ◌^◌, ◌≤◌, ◌<◌, ◌≡◌, ◌⊎◌, List, ◌∷◌, ◌++◌, length, All}
use thirft_proxy.Mempool.{Memory, MemPool}
use thirft_proxy.Mempool.Layout.{AllApart, Within, Held, Stack}

-- In the part of the newest block that is in use, or in an older block.
abbrev pub Placed : MemPool → List ℕ → ℕ → Type 0
Placed p older x =
    Within p.item_size (8 + p.item_size * p.alloc_pool_pos) x p.alloc_ptr
    ⊎ Held p.item_size p.alloc_size x older

pub record IsPool (mem : Memory) (p : MemPool) (older free live : List ℕ) : Type 0 where
  pub word : 8 ≤ p.item_size
  pub within : p.alloc_pool_pos ≤ p.total_alloc_item
  pub fits : 8 + p.item_size * p.total_alloc_item ≤ p.alloc_size
  pub some_item : 0 < p.total_alloc_item
  pub blocks : Stack mem p.alloc_ptr (p.alloc_ptr ∷ older)
  pub blocks_apart : AllApart p.alloc_size (p.alloc_ptr ∷ older)
  pub reuse : Stack mem p.reuse_ptr free
  pub items_apart : AllApart p.item_size (free ++ live)
  pub placed : All (Placed p older) (free ++ live)
  pub counted : p.ref_count ≡ length live
  pub few : length live < 2 ^ 31
