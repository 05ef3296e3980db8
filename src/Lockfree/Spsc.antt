-- ===== src/Lockfree/Spsc.antt =====
-- include/arbitrage/common/lockfree_queue.hpp: `SPSCQueue<T>`. `default_item` is `T()`. Each call is
-- taken as one step.
pub mod Refine
pub mod Calls
mod Tests
use kac.Base.{
  ℕ, Bool, true, false, not, Option, none, some, List, ◌==◌, if◌then◌else◌, bit_and, get_elem?, set,
  replicate,
}
use kac.Word.{add64, sub64}

pub record Queue {ℓ} (A : Type ℓ) : Type ℓ where
  pub capacity : ℕ
  pub mask : ℕ
  pub buffer : List A
  pub head : ℕ
  pub tail : ℕ

module _ {ℓ} {A : Type ℓ} where
  -- `none` is the `std::invalid_argument`. A capacity of 0 passes the test.
  pub make : A → ℕ → Option (Queue A)
  make default_item capacity =
      if not (bit_and capacity (sub64 capacity 1) == 0)
      then none
      else some (record {
        capacity = capacity;
        mask = sub64 capacity 1;
        buffer = replicate capacity default_item;
        head = 0;
        tail = 0;
      })

  pub push : Queue A → A → Bool × Queue A
  push q item =
      let next = bit_and (add64 q.head 1) q.mask in
      if next == q.tail
      then (false, q)
      else (true, record q { buffer = set q.buffer q.head item; head = next })

  pub pop : Queue A → Option A × Queue A
  pop q =
      if q.tail == q.head
      then (none, q)
      else (get_elem? q.buffer q.tail, record q { tail = bit_and (add64 q.tail 1) q.mask })

  pub empty : Queue A → Bool
  empty q = q.head == q.tail

  pub size_approx : Queue A → ℕ
  size_approx q = bit_and (sub64 q.head q.tail) q.mask
