-- ===== src/Ipc/Spsc/Refine.antt =====
-- `ShmSPSCQueue` is a bounded FIFO of one item less than its capacity.
use kac.Base.{
  ℕ, ◌-◌, ◌^◌, ◌<◌, ◌≡◌, refl, true, false, List, [], ◌∷◌, arith, length, length-set,
  length-replicate, replicate, ==_refl, Bool, ap, ◌∙◌, get_elem?-eq-get_or,
}
use kac.Bits.{pow2_pos}
use kac.Word.{add64, pow2_le_half, mask-lt}
use kac.Window.{window, length-window}
use kac.Cursor.{
  occupied, advance, distance, empty_iff, full_iff, occupied-lt, entries-write, entries-read,
}
use kac.Fifo
use kac.Fifo.{Call, Reply, pushes, pops}
use kac.Ipc.Header.{
  accepts_capacity_iff, rejects_capacity, accepts_header, fresh_header, accepts_header-fresh_header,
}
use kac.Ipc.Spsc.{
  Segment, Handle, init_producer, attach_consumer, push, pop, size, run, ready_segment, handle_of,
}

-- A handle that fits a segment of `2^k` slots.
pub record Fits (k : ℕ) (q : Handle) : Type 0 where
  pub usable : q.valid ≡ true
  pub masked : q.mask ≡ 2 ^ k - 1

pub record IsValid {ℓ} {A : Type ℓ} (k : ℕ) (s : Segment A) : Type ℓ where
  pub small : k < 64
  pub slots : length s.buffer ≡ 2 ^ k
  pub head_in : s.head < 2 ^ k
  pub tail_in : s.tail < 2 ^ k

-- The items in the queue, oldest first.
abbrev pub contents {ℓ} : {A : Type ℓ} → A → ℕ → Segment A → List A
contents zero_item k s = window zero_item (2 ^ k) s.buffer s.tail (occupied (2 ^ k) s.head s.tail)

module _ {A : Type 0} (k : ℕ) {q : Handle} {s : Segment A} (f : Fits k q) (v : IsValid k s) where
  pub push-IsValid : (x : A) → IsValid k (push q s x).1
  unfolding push
  push-IsValid x = ground (arith, length-set s.buffer s.head x, mask-lt k (add64 s.head 1))

  pub pop-IsValid : IsValid k (pop q s).1
  unfolding pop
  pop-IsValid = ground (arith, mask-lt k (add64 s.tail 1))

  -- The test of `push` passes exactly when the queue is not full.
  pub push_refines :
      (zero_item x : A)
      → let (done, t) = push q s x in
        (done, contents zero_item k t) ≡ Fifo.push (2 ^ k - 1) (contents zero_item k s) x
  unfolding push Fifo.push
  push_refines zero_item x = ground (
    arith,
    pow2_pos k,
    advance k v.small s.head s.tail v.head_in v.tail_in s.head v.head_in,
    full_iff k v.small s.head s.tail v.head_in v.tail_in,
    occupied-lt k v.small s.head s.tail v.head_in v.tail_in,
    length-window zero_item (2 ^ k) s.buffer s.tail (occupied (2 ^ k) s.head s.tail),
    entries-write zero_item k v.small s.buffer v.slots s.head s.tail v.head_in v.tail_in x,
  )

  pub pop_refines :
      (zero_item : A)
      → let (item, t) = pop q s in
        (item, contents zero_item k t) ≡ Fifo.pop (contents zero_item k s)
  unfolding pop Fifo.pop
  pop_refines zero_item = ground (
    arith,
    advance k v.small s.head s.tail v.head_in v.tail_in s.tail v.tail_in,
    empty_iff k v.small s.head s.tail v.head_in v.tail_in,
    get_elem?-eq-get_or s.buffer s.tail zero_item,
    entries-read zero_item k v.small s.buffer v.slots s.head s.tail v.head_in v.tail_in,
  )

  -- `size()` counts the items.
  pub size-eq-length : (zero_item : A) → size q s ≡ length (contents zero_item k s)
  unfolding size
  size-eq-length zero_item = ground (
    arith,
    distance k v.small s.head s.tail v.head_in v.tail_in,
    length-window zero_item (2 ^ k) s.buffer s.tail (occupied (2 ^ k) s.head s.tail),
  )

module _ {A : Type 0} (k : ℕ) (small : k < 64) (zero_item : A) (element_size pid consumer : ℕ) where
  pub ready-IsValid :
      let s = ready_segment zero_item element_size pid (2 ^ k) in
      IsValid k s × (contents zero_item k s ≡ [])
  unfolding ready_segment
  ready-IsValid = (
    record {
      small = small;
      slots = length-replicate (2 ^ k) zero_item;
      head_in = pow2_pos k;
      tail_in = pow2_pos k;
    },
    ap (window zero_item (2 ^ k) (replicate (2 ^ k) zero_item) 0)
        ((empty_iff k small 0 0 (pow2_pos k) (pow2_pos k)).0 refl),
  )

  pub handle-Fits : (b : Bool) (s : Segment A) → s.header.capacity ≡ 2 ^ k → Fits k (handle_of s b)
  handle-Fits b s e = record {
    usable = refl;
    masked = omega (arith, e, pow2_pos k, pow2_le_half k small);
  }

  -- A segment that `init_producer` has set up is a valid empty queue, to which the new handle and
  -- that of a consumer of the same element size fit.
  pub init_producer-attach_consumer :
      (s : Segment A)
      → let (p, t) = init_producer zero_item element_size pid s (2 ^ k) in
        let (c, u) = attach_consumer element_size consumer t in
        Fits k p × Fits k c × IsValid k u × (contents zero_item k u ≡ [])
  unfolding init_producer attach_consumer ready_segment fresh_header
  init_producer-attach_consumer s =
      rw (accepted, matching)
        (
          handle-Fits true (ready_segment zero_item element_size pid (2 ^ k)) refl,
          handle-Fits false (ready_segment zero_item element_size pid (2 ^ k)) refl,
          record {
            small = small;
            slots = ready-IsValid.0.slots;
            head_in = ready-IsValid.0.head_in;
            tail_in = ready-IsValid.0.tail_in;
          },
          ready-IsValid.1,
        )
    where
      accepted : rejects_capacity (2 ^ k) ≡ false
      accepted = (accepts_capacity_iff (2 ^ k) (omega (arith, pow2_le_half k small))).1 (k, refl)

      matching : accepts_header (fresh_header (2 ^ k) element_size pid) element_size ≡ true
      matching =
          accepts_header-fresh_header (2 ^ k) element_size pid element_size ∙ ==_refl element_size

-- No sequence of calls tells the queue from the bounded list of its contents.
pub run_refines_fifo :
    {A : Type 0} (k : ℕ) {p c : Handle} (zero_item : A) (cs : List (Call A)) {s : Segment A}
    → Fits k p
    → Fits k c
    → IsValid k s
    → run p c s cs ≡ Fifo.run (2 ^ k - 1) (contents zero_item k s) cs
unfolding run Fifo.run
run_refines_fifo k z [] f g v = refl
run_refines_fifo k z (pushes x ∷ cs) f g v =
    rw (run_refines_fifo k z cs f g (push-IsValid k f v x), ← push_refines k f v z x)
run_refines_fifo k z (pops ∷ cs) f g v =
    rw (run_refines_fifo k z cs f g (pop-IsValid k g v), ← pop_refines k g v z)
