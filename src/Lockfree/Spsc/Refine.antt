-- ===== src/Lockfree/Spsc/Refine.antt =====
-- `SPSCQueue` is a bounded FIFO of one item less than its capacity.
use kac.Base.{ℕ, ◌-◌, ◌^◌, ◌<◌, ◌≡◌, List, arith, length, length-set, get_elem?-eq-get_or}
use kac.Bits.{pow2_pos}
use kac.Word.{add64, mask-lt}
use kac.Window.{window, length-window}
use kac.Cursor.{
  occupied, advance, distance, empty_iff, full_iff, occupied-lt, entries-write, entries-read,
}
use kac.Fifo
use kac.Lockfree.Spsc.{Queue, push, pop, size_approx}

pub record IsValid {ℓ} {A : Type ℓ} (k : ℕ) (q : Queue A) : Type ℓ where
  pub small : k < 64
  pub masked : q.mask ≡ 2 ^ k - 1
  pub slots : length q.buffer ≡ 2 ^ k
  pub head_in : q.head < 2 ^ k
  pub tail_in : q.tail < 2 ^ k

abbrev pub contents {ℓ} : {A : Type ℓ} → A → ℕ → Queue A → List A
contents default_item k q =
    window default_item (2 ^ k) q.buffer q.tail (occupied (2 ^ k) q.head q.tail)

module _ {A : Type 0} (k : ℕ) {q : Queue A} (v : IsValid k q) (default_item : A) where
  -- `push` answers as the FIFO, leaves its contents, and keeps the queue valid.
  pub push_refines_fifo :
      (x : A)
      → let (done, r) = push q x in
        ((done, contents default_item k r) ≡ Fifo.push (2 ^ k - 1) (contents default_item k q) x)
        × IsValid k r
  unfolding push Fifo.push
  push_refines_fifo x = ground (
    arith,
    pow2_pos k,
    advance k v.small q.head q.tail v.head_in v.tail_in q.head v.head_in,
    full_iff k v.small q.head q.tail v.head_in v.tail_in,
    occupied-lt k v.small q.head q.tail v.head_in v.tail_in,
    length-window default_item (2 ^ k) q.buffer q.tail (occupied (2 ^ k) q.head q.tail),
    entries-write default_item k v.small q.buffer v.slots q.head q.tail v.head_in v.tail_in x,
    length-set q.buffer q.head x,
    mask-lt k (add64 q.head 1),
  )

  -- `pop` answers as the FIFO, leaves its contents, and keeps the queue valid.
  pub pop_refines_fifo :
      let (item, r) = pop q in
      ((item, contents default_item k r) ≡ Fifo.pop (contents default_item k q)) × IsValid k r
  unfolding pop Fifo.pop
  pop_refines_fifo = ground (
    arith,
    advance k v.small q.head q.tail v.head_in v.tail_in q.tail v.tail_in,
    empty_iff k v.small q.head q.tail v.head_in v.tail_in,
    get_elem?-eq-get_or q.buffer q.tail default_item,
    entries-read default_item k v.small q.buffer v.slots q.head q.tail v.head_in v.tail_in,
    mask-lt k (add64 q.tail 1),
  )

  pub size_approx-eq-length : size_approx q ≡ length (contents default_item k q)
  unfolding size_approx
  size_approx-eq-length = ground (
    arith,
    distance k v.small q.head q.tail v.head_in v.tail_in,
    length-window default_item (2 ^ k) q.buffer q.tail (occupied (2 ^ k) q.head q.tail),
  )
