-- ===== src/Mempool.antt =====
-- utils/mempool.cpp, the pool of items of one size. Memory is seen by the words that the pool
-- writes: `mem a` is the pointer at address `a`, and 0 is null. What `malloc` and `calloc` return
-- is an argument. Sizes are `size_t` on a 64-bit machine, where `sizeof(void*)` is 8.
use thirft_proxy.Prelude.{
  ℕ, zero, suc, ◌+◌, ◌-◌, ◌*◌, ◌/◌, ◌%◌, ◌^◌, Bool, true, false, ◌||◌, Option, none, some, List, [],
  ◌∷◌, ◌==◌, leb, ltb, if◌then◌else◌,
}
pub mod Sizes
pub mod Layout
pub mod Invariant
pub mod Steps
pub mod Alloc
pub mod Free

abbrev pub Memory : Type 0
Memory = ℕ → ℕ

abbrev pub store : ℕ → ℕ → Memory → Memory
store p v mem q = if p == q then v else mem q

-- `ref_count` is a 32-bit `int`, held as its bit pattern.
pub record MemPool : Type 0 where
  pub item_size : ℕ
  pub alloc_size : ℕ
  pub total_alloc_item : ℕ
  pub reuse_ptr : ℕ
  pub alloc_ptr : ℕ
  pub alloc_pool_pos : ℕ
  pub ref_count : ℕ

abbrev pub word_size : ℕ
word_size = 8

abbrev pub default_alloc_size : ℕ
default_alloc_size = 100

-- `if (n % m) n = n + m - n % m`, in `size_t`.
unfoldable pub round_up : ℕ → ℕ → ℕ
round_up n m = if n % m == 0 then n else (n + m - n % m) % 2 ^ 64

unfoldable pub item_bytes : ℕ → ℕ
unfolding round_up
item_bytes item_size = round_up (if ltb item_size word_size then word_size else item_size) word_size

-- At least a hundred items and a hundred pages, in whole pages. `item_size` is rounded already.
unfoldable pub block_bytes : ℕ → ℕ → ℕ → ℕ
unfolding round_up
block_bytes pagesize item_size alloc_size =
    let least = (item_size * default_alloc_size + word_size) % 2 ^ 64 in
    let by_items = if leb alloc_size least then least else alloc_size in
    let pages = default_alloc_size * pagesize in
    let by_pages = if leb by_items pages then pages else by_items in round_up by_pages pagesize

-- `control` is what `calloc` returns for the pool's own record, `block` what `malloc` returns.
unfoldable pub mempool_create : ℕ → ℕ → ℕ → (control block : ℕ) → Memory → Memory × Option MemPool
unfolding item_bytes block_bytes
mempool_create pagesize item_size alloc_size control block mem =
    let item = item_bytes item_size in
    let size = block_bytes pagesize item alloc_size in
    if control == 0 then (mem, none) else if block == 0 then (mem, none) else (
      store block 0 mem,
      some (record {
        item_size = item;
        alloc_size = size;
        total_alloc_item = (size - word_size) / item;
        reuse_ptr = 0;
        alloc_ptr = block;
        alloc_pool_pos = 0;
        ref_count = 0;
      }),
    )

unfoldable pub mempool_inc_refcount : Option MemPool → Bool × Option MemPool
mempool_inc_refcount none = (false, none)
mempool_inc_refcount (some p) = (true, some (record p { ref_count = (p.ref_count + 1) % 2 ^ 32 }))

-- The next item of the newest block.
abbrev pub bump : Memory → MemPool → ℕ × Memory × MemPool
bump mem p = (
  p.alloc_ptr + word_size + p.item_size * p.alloc_pool_pos,
  mem,
  record p { alloc_pool_pos = p.alloc_pool_pos + 1 },
)

-- The item and the pool before its count goes up; `block` is what `malloc` returns, if it is called.
abbrev pub take_item : ℕ → Memory → MemPool → ℕ × Memory × MemPool
take_item block mem p =
    if p.reuse_ptr == 0
    then if p.alloc_pool_pos == p.total_alloc_item
      then if block == 0
        then (0, mem, p)
        else bump (store block p.alloc_ptr mem) (record p { alloc_ptr = block; alloc_pool_pos = 0 })
      else bump mem p
    else (p.reuse_ptr, mem, record p { reuse_ptr = mem p.reuse_ptr })

abbrev counted : ℕ × Memory × MemPool → ℕ × Memory × Option MemPool
counted (item, mem, p) =
    if item == 0 then (0, mem, some p) else (item, mem, (mempool_inc_refcount (some p)).1)

unfoldable pub mempool_alloc : ℕ → Memory → Option MemPool → ℕ × Memory × Option MemPool
unfolding mempool_inc_refcount
mempool_alloc block mem none = (0, mem, none)
mempool_alloc block mem (some p) = counted (take_item block mem p)

abbrev cleared : ℕ × Memory × Option MemPool → ℕ × Memory × Option MemPool
cleared (item, mem, p) = if item == 0 then (0, mem, p) else (item, store item 0 mem, p)

-- `memset(p, 0, sizeof(pool->item_size))` clears the one word of a `size_t`.
unfoldable pub mempool_calloc : ℕ → Memory → Option MemPool → ℕ × Memory × Option MemPool
unfolding mempool_alloc
mempool_calloc block mem none = (0, mem, none)
mempool_calloc block mem (some p) = cleared (mempool_alloc block mem (some p))

unfoldable pub mempool_free : ℕ → Memory → Option MemPool → Bool × Memory × Option MemPool
mempool_free item mem none = (false, mem, none)
mempool_free item mem (some p) = (
  true,
  store item p.reuse_ptr mem,
  some (record p { reuse_ptr = item; ref_count = (p.ref_count + 2 ^ 32 - 1) % 2 ^ 32 }),
)

abbrev also_freed : ℕ → Option (List ℕ) → Option (List ℕ)
also_freed p none = none
also_freed p (some ps) = some (p ∷ ps)

-- The loop of `mempool_destroy`: the blocks that it frees, in order; `none` when the fuel runs out.
unfoldable pub free_blocks : ℕ → ℕ → Memory → Option (List ℕ)
free_blocks zero alloc_ptr mem = none
free_blocks (suc fuel) alloc_ptr mem =
    let rest = also_freed alloc_ptr (free_blocks fuel (mem alloc_ptr) mem) in
    if alloc_ptr == 0 then some [] else rest

-- `ref_count <= 0`: the pattern is 0, or has the sign bit.
abbrev pub unused : MemPool → Bool
unused p = (p.ref_count == 0) || leb (2 ^ 31) p.ref_count

abbrev destroyed : Option (List ℕ) → Option (Bool × List ℕ × Option MemPool)
destroyed none = none
destroyed (some ps) = some (true, ps, none)

-- The result, the blocks freed, and the pool if it stays.
unfoldable pub mempool_destroy :
    ℕ → Memory → Option MemPool → Option (Bool × List ℕ × Option MemPool)
mempool_destroy fuel mem none = some (false, [], none)
mempool_destroy fuel mem (some p) =
    let freed = free_blocks fuel p.alloc_ptr mem in
    if unused p then destroyed freed else some (true, [], some p)
