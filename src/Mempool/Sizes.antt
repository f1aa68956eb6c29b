-- ===== src/Mempool/Sizes.antt =====
-- The sizes that `mempool_create` computes.
use native.Mathlib.Nat.{div-add-mod, mod-lt, mod-eq_of_lt, mul-mod_right}
use thirft_proxy.Prelude.{
  ℕ, ◌+◌, ◌-◌, ◌*◌, ◌/◌, ◌%◌, ◌^◌, ◌≤◌, ◌<◌, ◌≡◌, ◌≢◌, some, arith, Bool-cases, ◌⊎◌, inl, inr, leb,
  ◌==◌, if◌then◌else◌,
}
use thirft_proxy.Mempool.{
  Memory, store, MemPool, round_up, item_bytes, block_bytes, mempool_create, word_size,
  default_alloc_size,
}

round_up_word :
    (n : ℕ) → n < 2 ^ 32 → (round_up n 8 % 8 ≡ 0) × (n ≤ round_up n 8) × (round_up n 8 < n + 8)
unfolding round_up
round_up_word n h = ground arith

pub item_bytes_lem :
    (n : ℕ)
    → n < 2 ^ 32
    → (item_bytes n % 8 ≡ 0) × (n ≤ item_bytes n) × (8 ≤ item_bytes n) × (item_bytes n < n + 16)
unfolding item_bytes
item_bytes_lem n h = ground (arith, round_up_word n h, round_up_word 8 (omega arith))

multiple : (n m : ℕ) → 0 < m → n % m ≢ 0 → (n + m - n % m) % m ≡ 0
multiple n m h k =
    let e : n + m - n % m ≡ m * (n / m + 1) = omega (arith, div-add-mod n m) in
    rw e (mul-mod_right m (n / m + 1))

round_up_ge :
    (n m : ℕ)
    → 0 < m
    → n + m < 2 ^ 64
    → (n ≤ round_up n m) × (round_up n m < n + m) × (round_up n m % m ≡ 0)
unfolding round_up
round_up_ge n m h k = elim (Bool-cases (n % m == 0)) [
  | inl e ↦ rw e (omega arith, omega arith, ground (arith, e))
  | inr e ↦
      let ne : n % m ≢ 0 = ground (arith, e) in
      let small : (n + m - n % m) % 2 ^ 64 ≡ n + m - n % m = mod-eq_of_lt (omega arith) in
      rw (e, small) (omega (arith, mod-lt n h), omega arith, multiple n m h ne)
]

block_bytes_lem :
    (page item size : ℕ)
    → 0 < page
    → page < 2 ^ 20
    → item < 2 ^ 33
    → size < 2 ^ 40
    → (block_bytes page item size % page ≡ 0)
      × (size ≤ block_bytes page item size)
      × (item * 100 + 8 ≤ block_bytes page item size)
      × (100 * page ≤ block_bytes page item size)
unfolding block_bytes
block_bytes_lem page item size h hp hi hs =
    let least : (item * 100 + 8) % 2 ^ 64 ≡ item * 100 + 8 = mod-eq_of_lt (omega arith) in
    let by_items : ℕ = if leb size (item * 100 + 8) then item * 100 + 8 else size in
    let by_pages : ℕ = if leb by_items (100 * page) then 100 * page else by_items in
    let bound : by_pages < 2 ^ 42 = ground arith in
    let (up, _, whole) = round_up_ge by_pages page h (omega arith) in
    rw least (whole, ground (arith, up), ground (arith, up), ground (arith, up))

items_fit : (item size : ℕ) → 0 < item → 8 + item * ((size - 8) / item) ≤ size ⊎ (size < 8)
items_fit item size h = grind (arith, div-add-mod (size - 8) item)

hundred_items : (item size : ℕ) → 0 < item → item * 100 + 8 ≤ size → 100 ≤ (size - 8) / item
hundred_items item size h k = grind (arith, div-add-mod (size - 8) item, mod-lt (size - 8) h)

-- What the sizes of a pool promise.
pub record IsSized (page item size : ℕ) (p : MemPool) : Type 0 where
  pub aligned : p.item_size % word_size ≡ 0
  pub holds_item : item ≤ p.item_size
  pub holds_word : word_size ≤ p.item_size
  pub whole_pages : p.alloc_size % page ≡ 0
  pub as_asked : size ≤ p.alloc_size
  pub many : default_alloc_size ≤ p.total_alloc_item
  pub fits : word_size + p.item_size * p.total_alloc_item ≤ p.alloc_size

-- For sizes within bounds and no failed allocation, `mempool_create` succeeds. Items are whole words
-- and hold what was asked for, a block is whole pages and at least as large as asked for, and it has
-- room for its link and for all of its items, at least a hundred.
pub mempool_create-IsSized :
    (page item size control block : ℕ) (mem : Memory)
    → 0 < page
    → page < 2 ^ 20
    → item < 2 ^ 32
    → size < 2 ^ 40
    → control ≢ 0
    → block ≢ 0
    → (p : MemPool) × (mempool_create page item size control block mem
        ≡ (store block 0 mem, some p))
      × IsSized page item size p
unfolding mempool_create
mempool_create-IsSized page item size control block mem h hp hi hs hc hb =
    let (al, ge, ge8, lt) = item_bytes_lem item hi in
    let (pages, asked, room, _) =
      block_bytes_lem page (item_bytes item) size h hp (omega arith) hs in
    (
      record {
        item_size = item_bytes item;
        alloc_size = block_bytes page (item_bytes item) size;
        total_alloc_item = (block_bytes page (item_bytes item) size - 8) / item_bytes item;
        reuse_ptr = 0;
        alloc_ptr = block;
        alloc_pool_pos = 0;
        ref_count = 0;
      },
      ground (arith, hc, hb),
      record {
        aligned = al;
        holds_item = ge;
        holds_word = ge8;
        whole_pages = pages;
        as_asked = asked;
        many = hundred_items (item_bytes item) _ (omega arith) room;
        fits = ground (
          arith,
          items_fit (item_bytes item) (block_bytes page (item_bytes item) size) (omega arith),
        );
      },
    )
