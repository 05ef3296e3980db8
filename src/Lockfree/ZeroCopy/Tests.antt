-- ===== src/Lockfree/ZeroCopy/Tests.antt =====
-- The theorems on `ZeroCopyQueue` at a queue that goes round the end of its buffer.
use kac.Base.{◌-◌, ◌^◌, ◌≡◌, refl, none, some, List, [], ◌∷◌, arith}
use kac.Fifo
use kac.Lockfree.ZeroCopy.{Queue, Pointer, make, push, pop}
use kac.Lockfree.ZeroCopy.Refine.{Holds, push-Holds}
use kac.Lockfree.ZeroCopy.Calls.{answers, addresses, make-addresses}

abbrev wrapped : Queue
wrapped = record {
  capacity = 4;
  mask = 3;
  buffer = some 80 ∷ none ∷ none ∷ some 70 ∷ [];
  head = 1;
  tail = 3;
}

wrapped-Holds : Holds 2 wrapped (70 ∷ 80 ∷ [])
wrapped-Holds = record {
  small = omega arith;
  masked = refl;
  slots = refl;
  head_in = omega arith;
  tail_in = omega arith;
  filled = refl;
}

make-addresses_example :
    (q : Queue) × (make (2 ^ 2) ≡ some q)
    × ((cs : List (Fifo.Call Pointer)) → answers q cs ≡ addresses (2 ^ 2 - 1) [] cs)
make-addresses_example = make-addresses 2 (omega arith)

wrapped_test : let (done, r) = push wrapped (some 90) in Holds 2 r (70 ∷ 80 ∷ 90 ∷ [])
unfolding Fifo.push
wrapped_test = (push-Holds 2 wrapped-Holds 90).1

pop_test :
    pop wrapped ≡ (some 70, record wrapped { buffer = some 80 ∷ none ∷ none ∷ none ∷ []; tail = 0 })
unfolding pop
pop_test = refl
