-- ===== src/Lockfree/ZeroCopy.antt =====
-- include/arbitrage/common/lockfree_queue.hpp: `ZeroCopyQueue<T>`, a queue of pointers. A pointer is
-- an optional address, `none` for `nullptr`. Each call is taken as one step.
pub mod Refine
pub mod Calls
mod Tests
use kac.Base.{
  ℕ, Bool, true, false, not, Option, none, some, List, ◌==◌, if◌then◌else◌, bit_and, get_or, set,
  replicate,
}
use kac.Word.{add64, sub64}
use kac.Ipc.Header.{rejects_capacity}

abbrev pub Pointer : Type 0
Pointer = Option ℕ

pub record Queue : Type 0 where
  pub capacity : ℕ
  pub mask : ℕ
  pub buffer : List Pointer
  pub head : ℕ
  pub tail : ℕ

-- `none` is the `std::invalid_argument`.
pub make : ℕ → Option Queue
make capacity =
    if rejects_capacity capacity
    then none
    else some (record {
      capacity = capacity;
      mask = sub64 capacity 1;
      buffer = replicate capacity none;
      head = 0;
      tail = 0;
    })

pub push : Queue → Pointer → Bool × Queue
push q none = (false, q)
push q (some address) =
    let next = bit_and (add64 q.head 1) q.mask in
    if next == q.tail
    then (false, q)
    else (true, record q { buffer = set q.buffer q.head (some address); head = next })

-- The slot that is read is set to `nullptr`.
pub pop : Queue → Pointer × Queue
pop q = if q.tail == q.head then (none, q) else (
  get_or q.buffer q.tail none,
  record q { buffer = set q.buffer q.tail none; tail = bit_and (add64 q.tail 1) q.mask },
)

pub empty : Queue → Bool
empty q = q.head == q.tail

pub size_approx : Queue → ℕ
size_approx q = bit_and (sub64 q.head q.tail) q.mask
