-- ===== src/Lockfree/Spsc/Calls.antt =====
-- Calls on an `SPSCQueue` from its constructor on.
use kac.Base.{
  ℕ, ◌-◌, ◌^◌, ◌<◌, ◌≡◌, refl, not, ◌==◌, Option, some, List, [], ◌∷◌, arith, ap, ◌∙◌, if-Holds,
  length-replicate, replicate, bit_and,
}
use kac.Bits.{pow2_pos, bit_and_of_pow2}
use kac.Word.{sub64, pow2_le_half}
use kac.Window.{window}
use kac.Cursor.{empty_iff}
use kac.Fifo
use kac.Fifo.{Call, Reply, pushes, pops, pushed, popped}
use kac.Lockfree.Spsc.{Queue, make, push, pop}
use kac.Lockfree.Spsc.Refine.{IsValid, contents, push_refines_fifo, pop_refines_fifo}

module _ {A : Type 0} where
  -- the calls of the producer and the consumer in the order in which they take effect
  pub answers : Queue A → List (Call A) → List (Reply A)
  answers q [] = []
  answers q (pushes x ∷ cs) = let (done, r) = push q x in pushed done ∷ answers r cs
  answers q (pops ∷ cs) = let (item, r) = pop q in popped item ∷ answers r cs

  module _ (k : ℕ) (default_item : A) where
    answers_refine :
        (cs : List (Call A)) (q : Queue A)
        → IsValid k q
        → answers q cs ≡ Fifo.run (2 ^ k - 1) (contents default_item k q) cs
    unfolding answers Fifo.run
    answers_refine [] q v = refl
    answers_refine (pushes x ∷ cs) q v =
        let (same, next) = push_refines_fifo k v default_item x in
        rw (answers_refine cs ((push q x).1) next, ← same)
    answers_refine (pops ∷ cs) q v =
        let (same, next) = pop_refines_fifo k v default_item in
        rw (answers_refine cs ((pop q).1) next, ← same)

    -- the queue that the constructor makes
    abbrev made : Queue A
    made = record {
      capacity = 2 ^ k;
      mask = sub64 (2 ^ k) 1;
      buffer = replicate (2 ^ k) default_item;
      head = 0;
      tail = 0;
    }

    make-made : k < 64 → make default_item (2 ^ k) ≡ some made
    unfolding make
    make-made small =
        if-Holds (λ (o : Option (Queue A)). o ≡ some made)
          (not (bit_and (2 ^ k) (sub64 (2 ^ k) 1) == 0))
          (λ bad. absurd (ground (arith, bad, apart))) (λ good. refl)
      where
        apart : bit_and (2 ^ k) (sub64 (2 ^ k) 1) ≡ 0
        apart =
            ap (bit_and (2 ^ k)) {x = sub64 (2 ^ k) 1} {y = 2 ^ k - 1}
              (omega (arith, pow2_pos k, pow2_le_half k small))
            ∙ bit_and_of_pow2 k

    made-IsValid : k < 64 → IsValid k made
    made-IsValid small = record {
      small = small;
      masked = omega (arith, pow2_pos k, pow2_le_half k small);
      slots = length-replicate (2 ^ k) default_item;
      head_in = pow2_pos k;
      tail_in = pow2_pos k;
    }

    -- The constructor accepts a capacity of 2^k, and no sequence of calls tells the queue that it
    -- makes from a FIFO, empty at first, of at most 2^k - 1 items.
    pub make-answers :
        k < 64
        → (q : Queue A) × (make default_item (2 ^ k) ≡ some q)
          × ((cs : List (Call A)) → answers q cs ≡ Fifo.run (2 ^ k - 1) [] cs)
    make-answers small = (
      made,
      make-made small,
      λ cs.
          answers_refine cs made (made-IsValid small)
          ∙ ap (λ (xs : List A). Fifo.run (2 ^ k - 1) xs cs)
              (ap (window default_item (2 ^ k) (replicate (2 ^ k) default_item) 0)
                ((empty_iff k small 0 0 (pow2_pos k) (pow2_pos k)).0 refl)),
    )
