-- ===== src/Lockfree/Spsc/Tests.antt =====
-- The theorems on `SPSCQueue` at a queue that goes round the end of its buffer.
use kac.Base.{ℕ, ◌-◌, ◌^◌, ◌≡◌, refl, some, List, [], ◌∷◌, arith}
use kac.Fifo
use kac.Lockfree.Spsc.{Queue, make, push, size_approx}
use kac.Lockfree.Spsc.Refine.{IsValid, contents, push_refines_fifo}
use kac.Lockfree.Spsc.Calls.{answers, make-answers}

abbrev wrapped : Queue ℕ
wrapped = record { capacity = 4; mask = 3; buffer = 8 ∷ 0 ∷ 0 ∷ 7 ∷ []; head = 1; tail = 3 }

wrapped-IsValid : IsValid 2 wrapped
wrapped-IsValid = record {
  small = omega arith;
  masked = refl;
  slots = refl;
  head_in = omega arith;
  tail_in = omega arith;
}

make-answers_example :
    (q : Queue ℕ) × (make 0 (2 ^ 2) ≡ some q)
    × ((cs : List (Fifo.Call ℕ)) → answers q cs ≡ Fifo.run (2 ^ 2 - 1) [] cs)
make-answers_example = make-answers 2 0 (omega arith)

wrapped_test : let (done, r) = push wrapped 9 in (contents 0 2 r ≡ 7 ∷ 8 ∷ 9 ∷ []) × IsValid 2 r
unfolding push
wrapped_test = let (same, valid) = push_refines_fifo 2 wrapped-IsValid 0 9 in (refl, valid)

size_test : size_approx wrapped ≡ 2
unfolding size_approx
size_test = refl
