-- ===== src/Ipc/Ring.antt =====
-- include/arbitrage/ipc/shm_ring_buffer.hpp: `ShmRingBuffer<T>`, whose producer always succeeds and
-- overwrites the oldest items. The segment is laid out as that of `ShmSPSCQueue`; the cursors
-- count all pushes and pops, and a slot is found by masking. Each call is taken as one step.
pub mod Log
pub mod Laws
pub mod Single
mod Tests
use kac.Base.{
  ℕ, Bool, true, false, not, Option, none, some, ◌==◌, leb, ltb, if◌then◌else◌, bit_and, get_elem?,
  set, List, [], ◌∷◌,
}
use kac.Word.{add64, sub64}
use kac.Ipc.Header.{rejects_capacity, accepts_header, pid_alive, state_code, closed}
use kac.Ipc.Spsc.{Segment, ready_segment}
use Log.{Call, pushes, pops, pops_latest}

pub record Handle : Type 0 where
  pub valid : Bool
  pub capacity : ℕ
  pub mask : ℕ

abbrev pub invalid_handle : Handle
invalid_handle = record { valid = false; capacity = 0; mask = 0 }

module _ {ℓ} {A : Type ℓ} where
  -- `explicit ShmRingBuffer(void* mem)`
  abbrev pub handle_of : Segment A → Handle
  handle_of s = record {
    valid = true;
    capacity = s.header.capacity;
    mask = sub64 s.header.capacity 1;
  }

  pub init_producer : A → ℕ → ℕ → Segment A → ℕ → Handle × Segment A
  init_producer zero_item element_size pid s capacity =
      let t = ready_segment zero_item element_size pid capacity in
      if rejects_capacity capacity then (invalid_handle, s) else (handle_of t, t)

  pub attach_consumer : ℕ → ℕ → Segment A → Handle × Segment A
  attach_consumer element_size pid s =
      let t : Segment A = record s { header = record (s.header) { consumer_pid = pid } } in
      if accepts_header s.header element_size then (handle_of t, t) else (invalid_handle, s)

  pub push : Handle → Segment A → A → Segment A
  push q s item =
      if not q.valid
      then s
      else record s { buffer = set s.buffer (bit_and s.head q.mask) item; head = add64 s.head 1 }

  -- Where `pop` reads: a consumer that lags is moved on to `mask` items behind the producer.
  pub catch_up : Handle → Segment A → ℕ
  catch_up q s = if ltb q.mask (sub64 s.head s.tail) then sub64 s.head q.mask else s.tail

  pub pop : Handle → Segment A → Option A × Segment A
  pop q s = if not q.valid then (none, s) else if leb s.head s.tail then (none, s) else (
    get_elem? s.buffer (bit_and (catch_up q s) q.mask),
    record s { tail = add64 (catch_up q s) 1 },
  )

  pub pop_latest : Handle → Segment A → Option A × Segment A
  pop_latest q s =
      if not q.valid
      then (none, s)
      else if leb s.head s.tail
      then (none, s)
      else (get_elem? s.buffer (bit_and (sub64 s.head 1) q.mask), record s { tail = s.head })

  pub empty : Handle → Segment A → Bool
  empty q s = if not q.valid then true else leb s.head s.tail

  pub size : Handle → Segment A → ℕ
  size q s =
      if not q.valid
      then 0
      else if leb s.head s.tail
      then 0
      else if ltb q.capacity (sub64 s.head s.tail)
      then q.capacity
      else sub64 s.head s.tail

  pub total_pushed : Handle → Segment A → ℕ
  total_pushed q s = if q.valid then s.head else 0

  pub is_closed : Handle → Segment A → Bool
  is_closed q s = if not q.valid then true else s.header.state == state_code closed

  pub close : Handle → Segment A → Segment A
  close q s =
      if not q.valid
      then s
      else record s { header = record (s.header) { state = state_code closed } }

  pub is_producer_alive : (ℕ → Bool) → Handle → Segment A → Bool
  is_producer_alive kill_ok q s =
      if not q.valid then false else pid_alive kill_ok s.header.producer_pid

  -- Calls in the order in which they take effect, with what the pops return.
  pub run : Handle → Handle → Segment A → List (Call A) → List (Option A)
  run p c s [] = []
  run p c s (pushes x ∷ cs) = run p c (push p s x) cs
  run p c s (pops ∷ cs) = let (item, t) = pop c s in item ∷ run p c t cs
  run p c s (pops_latest ∷ cs) = let (item, t) = pop_latest c s in item ∷ run p c t cs
