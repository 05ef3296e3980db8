-- ===== src/Pool.antt =====
-- include/arbitrage/common/memory_pool.hpp: `FixedMemoryPool`. A block is its index, and its first
-- word, which the free list goes through while the block is free, is an entry of `next`. Each call
-- is one step. The client of the pool keeps the blocks that it was given.
pub mod Ledger
mod Tests
use kac.Base.{
  ℕ, zero, suc, ◌+◌, Bool, true, false, Option, none, some, List, [], ◌∷◌, ◌==◌, ltb, if◌then◌else◌,
  get_elem?, set, replicate, length, count_if,
}

pub record FixedMemoryPool : Type 0 where
  pub next : List (Option ℕ)
  pub free_head : Option ℕ

unfoldable pub push_free : ℕ → FixedMemoryPool → FixedMemoryPool
push_free ptr pool = record { next = set pool.next ptr pool.free_head; free_head = some ptr }

-- The word of a free block is read before the exchange.
unfoldable pub pop_from : Option ℕ → FixedMemoryPool → Option ℕ × FixedMemoryPool
pop_from none pool = (none, pool)
pop_from (some block) pool = elim (get_elem? pool.next block) [
  | none ↦ (none, pool)
  | some rest ↦ (some block, record pool { free_head = rest })
]

unfoldable pub pop_free : FixedMemoryPool → Option ℕ × FixedMemoryPool
pop_free pool = pop_from pool.free_head pool

unfoldable pub allocate : FixedMemoryPool → Option ℕ × FixedMemoryPool
allocate pool = pop_free pool

unfoldable pub deallocate : Option ℕ → FixedMemoryPool → FixedMemoryPool
deallocate none pool = pool
deallocate (some ptr) pool = push_free ptr pool

-- the loop of the constructor, over the blocks below `n` from the last one on
unfoldable pub build : ℕ → FixedMemoryPool → FixedMemoryPool
build zero pool = pool
build (suc i) pool = build i (push_free i pool)

unfoldable pub new_pool : ℕ → FixedMemoryPool
new_pool block_count =
    build block_count (record { next = replicate block_count none; free_head = none })

-- the loop of `available_approx`, for at most `fuel` blocks
unfoldable pub count_from : ℕ → Option ℕ → FixedMemoryPool → ℕ
count_from zero block pool = 0
count_from (suc fuel) none pool = 0
count_from (suc fuel) (some block) pool = elim (get_elem? pool.next block) [
  | none ↦ 1
  | some rest ↦ suc (count_from fuel rest pool)
]

unfoldable pub available_approx : FixedMemoryPool → ℕ
available_approx pool = count_from (suc (length pool.next)) pool.free_head pool

-- What a client does: it allocates, gives back one of the blocks that it holds, or writes to the
-- first word of one.
pub data Use : Type 0 where
  allocates : Use
  frees : (ptr : ℕ) → Use
  writes : (ptr : ℕ) → (word : Option ℕ) → Use

pub record Client : Type 0 where
  pub pool : FixedMemoryPool
  pub held : List ℕ

unfoldable pub holds : ℕ → Client → Bool
holds ptr c = ltb 0 (count_if (ptr ==◌) c.held)

unfoldable pub without : ℕ → List ℕ → List ℕ
without ptr [] = []
without ptr (x ∷ xs) = let rest = without ptr xs in if ptr == x then xs else x ∷ rest

unfoldable pub take_block : Option ℕ × FixedMemoryPool → Client → Client
take_block (none, pool) c = record c { pool = pool }
take_block (some ptr, pool) c = record { pool = pool; held = ptr ∷ c.held }

-- A use of a block that is not held is not done.
unfoldable pub use_pool : Use → Client → Client
use_pool allocates c = take_block (allocate c.pool) c
use_pool (frees ptr) c =
    if holds ptr c
    then record { pool = deallocate (some ptr) c.pool; held = without ptr c.held }
    else c
use_pool (writes ptr word) c =
    if holds ptr c
    then record c { pool = record (c.pool) { next = set c.pool.next ptr word } }
    else c

unfoldable pub use_all : List Use → Client → Client
use_all [] c = c
use_all (u ∷ us) c = use_all us (use_pool u c)
