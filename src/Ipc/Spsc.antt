-- ===== src/Ipc/Spsc.antt =====
-- include/arbitrage/ipc/shm_queue.hpp: `ShmSPSCQueue<T>`. The segment is the shared memory; a
-- handle is the object that one process holds. `zero_item` is what `memset(buf, 0, …)` leaves.
-- Each call is taken as one step.
pub mod Refine
mod Tests
use kac.Base.{
  ℕ, ◌-◌, Bool, true, false, not, Option, none, some, List, [], ◌∷◌, ◌==◌, if◌then◌else◌, bit_and,
  get_elem?, set, replicate,
}
use kac.Word.{add64, sub64}
use kac.Ipc.Header.{
  ShmQueueHeader, rejects_capacity, fresh_header, accepts_header, pid_alive, state_code, closed,
}
use kac.Fifo.{Call, Reply, pushes, pops, pushed, popped}

pub record Segment {ℓ} (A : Type ℓ) : Type ℓ where
  pub header : ShmQueueHeader
  pub head : ℕ
  pub tail : ℕ
  pub buffer : List A

pub record Handle : Type 0 where
  pub valid : Bool
  pub is_producer : Bool
  pub mask : ℕ

-- `ShmSPSCQueue()`
abbrev pub invalid_handle : Handle
invalid_handle = record { valid = false; is_producer = false; mask = 0 }

module _ {ℓ} {A : Type ℓ} where
  -- `explicit ShmSPSCQueue(void* mem, bool is_producer)`
  abbrev pub handle_of : Segment A → Bool → Handle
  handle_of s producer = record {
    valid = true;
    is_producer = producer;
    mask = sub64 s.header.capacity 1;
  }

  -- The memory that `init_producer` leaves.
  unfoldable pub ready_segment : A → ℕ → ℕ → ℕ → Segment A
  ready_segment zero_item element_size pid capacity = record {
    header = fresh_header capacity element_size pid;
    head = 0;
    tail = 0;
    buffer = replicate capacity zero_item;
  }

  unfoldable pub init_producer : A → ℕ → ℕ → Segment A → ℕ → Handle × Segment A
  init_producer zero_item element_size pid s capacity =
      let t = ready_segment zero_item element_size pid capacity in
      if rejects_capacity capacity then (invalid_handle, s) else (handle_of t true, t)

  unfoldable pub attach_consumer : ℕ → ℕ → Segment A → Handle × Segment A
  attach_consumer element_size pid s =
      let t : Segment A = record s { header = record (s.header) { consumer_pid = pid } } in
      if accepts_header s.header element_size then (handle_of t false, t) else (invalid_handle, s)

  -- A write out of range changes nothing, and a read out of range gives `none`: the invariant
  -- rules both out.
  unfoldable pub push : Handle → Segment A → A → Bool × Segment A
  push q s item =
      if not q.valid
      then (false, s)
      else if next == s.tail
      then (false, s)
      else (true, record s { buffer = set s.buffer s.head item; head = next })
    where
      next : ℕ
      next = bit_and (add64 s.head 1) q.mask

  unfoldable pub pop : Handle → Segment A → Option A × Segment A
  pop q s =
      if not q.valid
      then (none, s)
      else if s.tail == s.head
      then (none, s)
      else (get_elem? s.buffer s.tail, record s { tail = bit_and (add64 s.tail 1) q.mask })

  pub empty : Handle → Segment A → Bool
  empty q s = if not q.valid then true else s.head == s.tail

  pub size : Handle → Segment A → ℕ
  size q s = if not q.valid then 0 else bit_and (sub64 s.head s.tail) q.mask

  pub capacity : Handle → Segment A → ℕ
  capacity q s = if q.valid then s.header.capacity else 0

  pub is_closed : Handle → Segment A → Bool
  is_closed q s = if not q.valid then true else s.header.state == state_code closed

  pub close : Handle → Segment A → Segment A
  close q s =
      if not q.valid
      then s
      else record s { header = record (s.header) { state = state_code closed } }

  pub is_producer_alive : (ℕ → Bool) → Handle → Segment A → Bool
  unfolding pid_alive
  is_producer_alive kill_ok q s =
      if not q.valid then false else pid_alive kill_ok s.header.producer_pid

  pub is_consumer_alive : (ℕ → Bool) → Handle → Segment A → Bool
  unfolding pid_alive
  is_consumer_alive kill_ok q s =
      if not q.valid then false else pid_alive kill_ok s.header.consumer_pid

  -- A producer's and a consumer's calls in the order in which they take effect.
  pub run : Handle → Handle → Segment A → List (Call A) → List (Reply A)
  run p c s [] = []
  run p c s (pushes x ∷ cs) = let (done, t) = push p s x in pushed done ∷ run p c t cs
  run p c s (pops ∷ cs) = let (item, t) = pop c s in popped item ∷ run p c t cs
