-- ===== src/Ipc/Header.antt =====
-- include/arbitrage/ipc/ipc_types.hpp: the header at the start of each shared segment, and
-- what the factories of the queues do with it. `::getpid()` and `::kill(pid, 0)` are arguments.
mod Tests
use kac.Base.{
  ℕ, ◌+◌, ◌-◌, ◌*◌, ◌≤◌, ◌<◌, Bool, true, false, not, ◌||◌, ◌==◌, leb, if◌then◌else◌, bit_and, ◌^◌,
  ◌≡◌, ◌↔◌, arith, ◌∙◌, ap, sym, ◌%◌,
}
use kac.Word.{word, sub64}
use kac.Bits.{pow2_of_bit_and, bit_and_of_pow2, pow2_pos}

abbrev pub shm_magic : ℕ
shm_magic = 0xDEADBEEF4B494D43

abbrev pub shm_version : ℕ
shm_version = 1

pub data ShmQueueState : Type 0 where
  init ready closed : ShmQueueState

-- The header keeps the state as a `uint8_t`.
abbrev pub state_code : ShmQueueState → ℕ
state_code init = 0
state_code ready = 1
state_code closed = 2

pub record ShmQueueHeader : Type 0 where
  pub magic : ℕ
  pub version : ℕ
  pub capacity : ℕ
  pub element_size : ℕ
  pub producer_pid : ℕ
  pub consumer_pid : ℕ
  pub state : ℕ

-- `sizeof(ShmQueueHeader)` and `sizeof(ShmAtomicIndex)`, one cache line each
abbrev cache_line_size : ℕ
cache_line_size = 64

unfoldable pub shm_queue_size : ℕ → ℕ → ℕ
shm_queue_size capacity element_size =
    (cache_line_size + 2 * cache_line_size + capacity * element_size) % word

-- `(capacity & (capacity - 1)) != 0 || capacity == 0`
unfoldable pub rejects_capacity : ℕ → Bool
rejects_capacity capacity = not (bit_and capacity (sub64 capacity 1) == 0) || capacity == 0

-- The header that `init_producer` leaves.
unfoldable pub fresh_header : ℕ → ℕ → ℕ → ShmQueueHeader
fresh_header capacity element_size pid = record {
  magic = shm_magic;
  version = shm_version;
  capacity = capacity;
  element_size = element_size;
  producer_pid = pid;
  consumer_pid = 0;
  state = state_code ready;
}

-- The tests of `attach_consumer`, in its order.
unfoldable pub accepts_header : ShmQueueHeader → ℕ → Bool
accepts_header header element_size =
    if not (header.magic == shm_magic)
    then false
    else if not (header.version == shm_version)
    then false
    else if not (header.element_size == element_size)
    then false
    else if not (header.state == state_code ready)
    then false
    else true

-- `is_producer_alive` and `is_consumer_alive`: the test of the pid is made before `kill`.
unfoldable pub pid_alive : (ℕ → Bool) → ℕ → Bool
pid_alive kill_ok pid = if leb pid 0 then false else kill_ok pid

-- The factories accept exactly the powers of two that a `size_t` holds.
pub accepts_capacity_iff :
    (capacity : ℕ)
    → capacity < word
    → (rejects_capacity capacity ≡ false) ↔ ((k : ℕ) × (capacity ≡ 2 ^ k))
unfolding rejects_capacity
accepts_capacity_iff capacity small = (to_power, of_power)
  where
    lower : 1 ≤ capacity → sub64 capacity 1 ≡ capacity - 1
    lower pos = omega arith

    to_power : rejects_capacity capacity ≡ false → (k : ℕ) × (capacity ≡ 2 ^ k)
    to_power h =
        let pos : 1 ≤ capacity = ground arith in
        let apart : bit_and capacity (sub64 capacity 1) ≡ 0 = ground arith in
        pow2_of_bit_and capacity pos (ap (bit_and capacity) (sym (lower pos)) ∙ apart)

    of_power : ((k : ℕ) × (capacity ≡ 2 ^ k)) → rejects_capacity capacity ≡ false
    of_power (k, e) =
        let pos : 1 ≤ capacity = omega (arith, pow2_pos k) in
        let apart : bit_and capacity (sub64 capacity 1) ≡ 0 =
          ap (bit_and capacity) (lower pos) ∙ ap (λ c. bit_and c (c - 1)) e ∙ bit_and_of_pow2 k in
        ground arith

-- A consumer of the same element size is accepted by the header that a producer wrote, and no
-- other consumer is.
pub accepts_header-fresh_header :
    (capacity element_size pid wanted : ℕ)
    → accepts_header (fresh_header capacity element_size pid) wanted ≡ (element_size == wanted)
unfolding accepts_header fresh_header
accepts_header-fresh_header capacity element_size pid wanted = ground arith
