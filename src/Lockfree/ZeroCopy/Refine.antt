-- ===== src/Lockfree/ZeroCopy/Refine.antt =====
-- `ZeroCopyQueue` hands each pointer over once: it is a bounded FIFO of addresses.
use kac.Base.{
  ℕ, suc, ◌-◌, ◌^◌, ◌<◌, ◌≡◌, refl, ap, ◌∙◌, false, none, some, List, [], ◌∷◌, map, arith, length,
  length-set, sym,
}
use mathlib.Core.List.{map-append}
use kac.Bits.{pow2_pos}
use kac.Word.{add64, mask-lt}
use kac.Window.{window, length-window}
use kac.Cursor.{
  occupied, advance, empty_iff, full_iff, occupied-lt, entries-write, entries-read, entries-clear,
}
use kac.Fifo
use kac.Lockfree.ZeroCopy.{Queue, Pointer, push, pop}

abbrev pub slots_in_use : ℕ → Queue → List Pointer
slots_in_use k q = window none (2 ^ k) q.buffer q.tail (occupied (2 ^ k) q.head q.tail)

-- The queue holds the addresses `held`, oldest first, and none of its slots in use is null.
pub record Holds (k : ℕ) (q : Queue) (held : List ℕ) : Type 0 where
  pub small : k < 64
  pub masked : q.mask ≡ 2 ^ k - 1
  pub slots : length q.buffer ≡ 2 ^ k
  pub head_in : q.head < 2 ^ k
  pub tail_in : q.tail < 2 ^ k
  pub filled : slots_in_use k q ≡ map some held

length-map-some : (xs : List ℕ) → length (map (λ (x : ℕ). some x) xs) ≡ length xs
length-map-some [] = refl
length-map-some (x ∷ xs) = ap suc (length-map-some xs)

module _ (k : ℕ) {q : Queue} {held : List ℕ} (v : Holds k q held) where
  count : occupied (2 ^ k) q.head q.tail ≡ length held
  count =
      sym (length-window none (2 ^ k) q.buffer q.tail (occupied (2 ^ k) q.head q.tail))
      ∙ ap length v.filled
      ∙ length-map-some held

  -- `push` of a pointer that is not null answers as the FIFO of addresses.
  pub push-Holds :
      (address : ℕ)
      → let (done, r) = push q (some address) in
        let (answer, next) = Fifo.push (2 ^ k - 1) held address in (done ≡ answer) × Holds k r next
  unfolding push Fifo.push
  push-Holds address = ground (
    arith,
    count,
    pow2_pos k,
    advance k v.small q.head q.tail v.head_in v.tail_in q.head v.head_in,
    full_iff k v.small q.head q.tail v.head_in v.tail_in,
    occupied-lt k v.small q.head q.tail v.head_in v.tail_in,
    entries-write none k v.small q.buffer v.slots q.head q.tail v.head_in v.tail_in (some address),
    length-set q.buffer q.head (some address),
    mask-lt k (add64 q.head 1),
    map-append (λ (x : ℕ). some x) held (address ∷ []),
  )

  -- `push` of `nullptr` is refused and changes nothing.
  pub push-null : push q none ≡ (false, q)
  unfolding push
  push-null = refl

-- `pop` returns `nullptr` exactly when the queue is empty, and otherwise the oldest address.
pub pop-Holds :
    (k : ℕ) {q : Queue} (held : List ℕ)
    → Holds k q held
    → let (item, r) = pop q in
      let (answer, next) = Fifo.pop held in (item ≡ answer) × Holds k r next
unfolding pop Fifo.pop
pop-Holds k {q} [] v =
    ground (arith, count k v, empty_iff k v.small q.head q.tail v.head_in v.tail_in)
pop-Holds k {q} (x ∷ held) v = ground (
  arith,
  count k v,
  v.filled,
  advance k v.small q.head q.tail v.head_in v.tail_in q.tail v.tail_in,
  empty_iff k v.small q.head q.tail v.head_in v.tail_in,
  entries-read none k v.small q.buffer v.slots q.head q.tail v.head_in v.tail_in,
  entries-clear none k v.small q.buffer v.slots q.head q.tail v.head_in v.tail_in none,
  length-set q.buffer q.tail none,
  mask-lt k (add64 q.tail 1),
)
