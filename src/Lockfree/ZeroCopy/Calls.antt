-- ===== src/Lockfree/ZeroCopy/Calls.antt =====
-- Calls on a `ZeroCopyQueue` from its constructor on.
use kac.Base.{
  ℕ, ◌-◌, ◌^◌, ◌<◌, ◌≡◌, refl, false, Option, some, none, List, [], ◌∷◌, arith, ap, ap₂, if-Holds,
  length-replicate, replicate,
}
use kac.Bits.{pow2_pos}
use kac.Word.{sub64, pow2_le_half}
use kac.Window.{window}
use kac.Cursor.{empty_iff}
use kac.Fifo
use kac.Fifo.{Call, Reply, pushes, pops, pushed, popped}
use kac.Ipc.Header.{rejects_capacity, accepts_capacity_iff}
use kac.Lockfree.ZeroCopy.{Queue, Pointer, make, push, pop}
use kac.Lockfree.ZeroCopy.Refine.{Holds, push-Holds, pop-Holds, push-null}

-- the calls in the order in which they take effect; a push may be of `nullptr`
pub answers : Queue → List (Call Pointer) → List (Reply ℕ)
answers q [] = []
answers q (pushes pointer ∷ cs) = let (done, r) = push q pointer in pushed done ∷ answers r cs
answers q (pops ∷ cs) = let (item, r) = pop q in popped item ∷ answers r cs

-- A FIFO of addresses that refuses `nullptr`.
unfoldable pub addresses : ℕ → List ℕ → List (Call Pointer) → List (Reply ℕ)
addresses room held [] = []
addresses room held (pushes none ∷ cs) = pushed false ∷ addresses room held cs
addresses room held (pushes (some x) ∷ cs) =
    let (done, next) = Fifo.push room held x in pushed done ∷ addresses room next cs
addresses room held (pops ∷ cs) =
    let (item, next) = Fifo.pop held in popped item ∷ addresses room next cs

module _ (k : ℕ) where
  answers_refine :
      (cs : List (Call Pointer)) (q : Queue) (held : List ℕ)
      → Holds k q held
      → answers q cs ≡ addresses (2 ^ k - 1) held cs
  unfolding answers addresses
  answers_refine [] q held v = refl
  answers_refine (pushes none ∷ cs) q held v =
      rw (push-null k v) (ap (pushed false ∷◌) (answers_refine cs q held v))
  answers_refine (pushes (some x) ∷ cs) q held v =
      let (same, next) = push-Holds k v x in
      ap₂ (λ done rest. pushed done ∷ rest) same (answers_refine cs ((push q (some x)).1) _ next)
  answers_refine (pops ∷ cs) q held v =
      let (same, next) = pop-Holds k held v in
      ap₂ (λ item rest. popped item ∷ rest) same (answers_refine cs ((pop q).1) _ next)

  -- the queue that the constructor makes
  abbrev made : Queue
  made = record {
    capacity = 2 ^ k;
    mask = sub64 (2 ^ k) 1;
    buffer = replicate (2 ^ k) none;
    head = 0;
    tail = 0;
  }

  make-made : k < 64 → make (2 ^ k) ≡ some made
  unfolding make
  make-made small =
      if-Holds (λ (o : Option Queue). o ≡ some made) (rejects_capacity (2 ^ k))
        (λ bad. absurd (ground (arith, bad, accepted))) (λ good. refl)
    where
      accepted : rejects_capacity (2 ^ k) ≡ false
      accepted = (accepts_capacity_iff (2 ^ k) (omega (arith, pow2_le_half k small))).1 (k, refl)

  made-Holds : k < 64 → Holds k made []
  made-Holds small = record {
    small = small;
    masked = omega (arith, pow2_pos k, pow2_le_half k small);
    slots = length-replicate (2 ^ k) none;
    head_in = pow2_pos k;
    tail_in = pow2_pos k;
    filled =
        ap (window none (2 ^ k) (replicate (2 ^ k) none) 0)
          ((empty_iff k small 0 0 (pow2_pos k) (pow2_pos k)).0 refl);
  }

  -- The constructor accepts a capacity of 2^k, and no sequence of calls tells the queue that it makes
  -- from a FIFO of addresses, empty at first, of at most 2^k - 1, that refuses nullptr.
  pub make-addresses :
      k < 64
      → (q : Queue) × (make (2 ^ k) ≡ some q)
        × ((cs : List (Call Pointer)) → answers q cs ≡ addresses (2 ^ k - 1) [] cs)
  make-addresses small = (made, make-made small, λ cs. answers_refine cs made [] (made-Holds small))
