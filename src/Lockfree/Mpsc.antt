-- ===== src/Lockfree/Mpsc.antt =====
-- include/arbitrage/common/lockfree_queue.hpp: `MPSCQueue<T>`, many producers and one consumer.
-- `push` and `pop` are cut into their accesses to shared memory, and any number of producers and
-- the consumer interleave between these, each access taking effect in program order. A slot's
-- `turn` and `data` are functions of its index; the destructor calls on `data` are left out.
pub mod Machine
pub mod Inv
pub mod Win
pub mod Publish
pub mod Release
pub mod Push
pub mod Pop
pub mod Safety
pub mod Single
pub mod Full
mod Tests
use kac.Base.{
  ℕ, ◌-◌, Bool, true, false, not, ◌&&◌, ◌||◌, Option, none, some, ◌==◌, ltb, if◌then◌else◌, bit_and,
}
use kac.Word.{add64, sub64}
use kac.Ipc.Header.{rejects_capacity}

-- a write to one place of an array
abbrev pub update {ℓ} : {A : Type ℓ} (slots : ℕ → A) (index : ℕ) (value : A) (other : ℕ) → A
update slots index value other = if index == other then value else slots other

pub record Queue {ℓ} (A : Type ℓ) : Type ℓ where
  pub capacity : ℕ
  pub mask : ℕ
  pub head : ℕ
  pub tail : ℕ
  pub turn : ℕ → ℕ
  pub data_of : ℕ → A

-- Where a producer stands in `push(item)`, and the `head` that it holds.
pub data Producer {ℓ} (A : Type ℓ) : Type ℓ where
  outside : Producer A
  at_turn : A → ℕ → Producer A
  at_cas : A → ℕ → Producer A
  reloading : A → Producer A
  claimed : A → ℕ → Producer A
  filled : A → ℕ → Producer A
  returned : Bool → Producer A

-- Where the consumer stands in `pop`.
pub data Consumer {ℓ} (A : Type ℓ) : Type ℓ where
  resting : Consumer A
  at_take : Consumer A
  at_release : A → Consumer A
  popped : Option A → Consumer A

module _ {ℓ} {A : Type ℓ} where
  -- `explicit MPSCQueue(size_t capacity)`; `none` is the `std::invalid_argument`. The data of a
  -- new slot is not initialised: any function.
  pub make : (ℕ → A) → ℕ → Option (Queue A)
  make garbage capacity =
      if rejects_capacity capacity
      then none
      else some (record {
        capacity = capacity;
        mask = sub64 capacity 1;
        head = 0;
        tail = 0;
        turn = λ i. i;
        data_of = garbage;
      })

  -- `slots_[position & mask_]`
  abbrev pub slot : Queue A → ℕ → ℕ
  slot q position = bit_and position q.mask

  -- `size_t head = head_.load(…)`
  pub begin_push : Queue A → A → Producer A
  begin_push q item = at_turn item q.head

  -- `turn` is loaded and compared with `head`.
  pub check_turn : Queue A → A → ℕ → Producer A
  check_turn q item head =
      let turn = q.turn (slot q head) in
      if turn == head
      then at_cas item head
      else if ltb turn head
      then returned false
      else reloading item

  -- The next access of a producer. A weak exchange may fail though the values are equal.
  pub step_push : Bool → Queue A → Producer A → Queue A × Producer A
  step_push fails q outside = (q, outside)
  step_push fails q (at_turn item head) = (q, check_turn q item head)
  step_push fails q (at_cas item head) =
      if not fails && q.head == head
      then (record q { head = add64 head 1 }, claimed item head)
      else (q, at_turn item q.head)
  step_push fails q (reloading item) = (q, at_turn item q.head)
  step_push fails q (claimed item head) =
      (record q { data_of = update q.data_of (slot q head) item }, filled item head)
  step_push fails q (filled item head) =
      (record q { turn = update q.turn (slot q head) (add64 head 1) }, returned true)
  step_push fails q (returned done) = (q, returned done)

  -- `size_t turn = slot.turn.load(…)` and its test
  pub begin_pop : Queue A → Consumer A
  begin_pop q = if not (q.turn (slot q q.tail) == add64 q.tail 1) then popped none else at_take

  pub step_pop : Queue A → Consumer A → Queue A × Consumer A
  step_pop q resting = (q, resting)
  step_pop q at_take = (q, at_release (q.data_of (slot q q.tail)))
  step_pop q (at_release item) = (
    record q {
      turn = update q.turn (slot q q.tail) (add64 q.tail q.capacity);
      tail = add64 q.tail 1;
    },
    popped (some item),
  )
  step_pop q (popped result) = (q, popped result)

  pub empty : Queue A → Bool
  empty q = q.tail == q.head

  pub size_approx : Queue A → ℕ
  size_approx q = bit_and (sub64 q.head q.tail) q.mask
