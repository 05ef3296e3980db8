-- ===== src/Ipc/Latest.antt =====
-- include/arbitrage/ipc/shm_latest.hpp: `ShmLatestValue<T>`, one value behind a sequence counter
-- that is odd while it is written. A value of `T` is a list of the words that `memcpy` moves.
-- `store` and `load` are cut into the accesses to shared memory that they make, and the writer
-- and the reader interleave between these, each access taking effect in program order.
pub mod Machine
pub mod Inv
pub mod Safety
mod Tests
use kac.Base.{
  ℕ, zero, suc, ◌+◌, ◌%◌, Bool, true, false, not, Option, none, some, List, [], ◌∷◌, ◌++◌, ◌==◌,
  ◌&&◌, leb, if◌then◌else◌, get_or, set, replicate, length,
}
use kac.Word.{add64}
use kac.Ipc.Header.{ShmQueueHeader, fresh_header, accepts_header, state_code, closed, pid_alive}

-- The segment, without the header.
pub record Cell {ℓ} (A : Type ℓ) : Type ℓ where
  pub seq : ℕ
  pub value : List A

-- Where the writer stands in `store`: in it, `base` is the counter that it loaded, and `done`
-- words of `item` are copied.
pub data Writer {ℓ} (A : Type ℓ) : Type ℓ where
  idle : Writer A
  writing : (base : ℕ) → (item : List A) → (done : ℕ) → Writer A

-- Where the reader stands in `load`: in it, `first` is `seq1`, and `got` are the words copied so
-- far. A call that returned shows the counter that it saw and what it gave.
pub data Reader {ℓ} (A : Type ℓ) : Type ℓ where
  resting : Reader A
  reading : (first : ℕ) → (got : List A) → Reader A
  returned : (first : ℕ) → Option (List A) → Reader A

pub attach_consumer : ShmQueueHeader → ℕ → ℕ → Option ShmQueueHeader
unfolding accepts_header
attach_consumer header element_size pid =
    if accepts_header header element_size then some (record header { consumer_pid = pid }) else none

module _ {ℓ} {A : Type ℓ} where
  -- `init_producer`: the capacity that it is given is ignored, and one value of `words` words is
  -- set to zero.
  pub init_producer : A → ℕ → ℕ → ℕ → ShmQueueHeader × Cell A
  unfolding fresh_header
  init_producer zero_item words element_size pid =
      (fresh_header 1 element_size pid, record { seq = 0; value = replicate words zero_item })

  -- `uint64_t seq = seq_->value.load(…); seq_->value.store(seq + 1, …)`
  -- after the test of `valid_`
  pub begin_store : Bool → Cell A → List A → Cell A × Writer A
  begin_store valid c item =
      if not valid then (c, idle) else (record c { seq = add64 c.seq 1 }, writing c.seq item 0)

  -- one word of `memcpy(value_, &item, sizeof(T))`
  pub store_word : A → Cell A → ℕ → List A → ℕ → Cell A × Writer A
  store_word zero_item c base item done = (
    record c { value = set c.value done (get_or item done zero_item) },
    writing base item (suc done),
  )

  -- `seq_->value.store(seq + 2, …)`
  pub end_store : Cell A → ℕ → Cell A × Writer A
  end_store c base = (record c { seq = add64 base 2 }, idle)

  -- the test of `valid_`, `uint64_t seq1 = seq_->value.load(…)` and the two tests of it
  pub begin_load : Bool → Cell A → Reader A
  begin_load valid c =
      if not valid
      then returned 0 none
      else if c.seq == 0
      then returned c.seq none
      else if not (c.seq % 2 == 0)
      then returned c.seq none
      else reading c.seq []

  -- one word of `memcpy(&item, value_, sizeof(T))`
  pub load_word : A → Cell A → ℕ → List A → Reader A
  load_word zero_item c first got =
      reading first (got ++ get_or c.value (length got) zero_item ∷ [])

  -- `uint64_t seq2 = seq_->value.load(…); return seq1 == seq2`
  pub end_load : Cell A → ℕ → List A → Reader A
  end_load c first got = returned first (if first == c.seq then some got else none)

  pub has_data : Bool → Cell A → Bool
  has_data valid c = valid && leb 2 c.seq

  -- The loop of `load_spin` over what its calls of `load` give, `retries` of them at most.
  pub load_spin : (ℕ → Option (List A)) → ℕ → ℕ → Option (List A)
  load_spin load i zero = none
  load_spin load i (suc retries) =
      let rest = load_spin load (suc i) retries in
      elim (load i) [ some item ↦ some item | none ↦ rest ]
