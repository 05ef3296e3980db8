-- ===== src/Lockfree/Mpsc/Single.antt =====
-- `MPSCQueue` with a single producer at work: a whole call of `push`, and what goes wrong with the
-- capacity of one, which the constructor accepts.
use kac.Base.{
  ℕ, zero, suc, ◌+◌, ◌-◌, ◌%◌, ◌^◌, ◌<◌, ◌≡◌, ◌∙◌, ap, true, false, none, ◌==◌, arith, bit_and,
  ==_refl, refl,
}
use kac.Bits.{bit_and-mask}
use kac.Lockfree.Mpsc.Inv.{update_same}
use kac.Word.{word, add64}
use kac.Lockfree.Mpsc.{
  Queue, Producer, Consumer, returned, popped, update, slot, begin_push, check_turn, step_push,
  begin_pop, step_pop,
}

module _ {A : Type 0} where
  -- `n` accesses of a producer whom nobody disturbs
  pub push_steps : ℕ → Queue A × Producer A → Queue A × Producer A
  push_steps zero s = s
  push_steps (suc n) s = push_steps n (step_push false s.0 s.1)

  -- A call of `push` that runs alone has returned after at most four accesses.
  pub push_alone : Queue A → A → Queue A × Producer A
  unfolding push_steps
  push_alone q item = push_steps 4 (q, begin_push q item)

  -- A call of `pop`: its test, and two accesses if it passes.
  pub pop_alone : Queue A → Queue A × Consumer A
  pop_alone q = let (r, c) = step_pop q (begin_pop q) in step_pop r c

module _ {A : Type 0} (k : ℕ) (q : Queue A) (item : A) (masked : q.mask ≡ 2 ^ k - 1) where
  slot-mod : (p : ℕ) → slot q p ≡ p % 2 ^ k
  slot-mod p = ap (bit_and p) masked ∙ bit_and-mask k p

  -- Alone and with the slot of `head` free, `push` succeeds: it stores the item under the next
  -- turn and moves `head`.
  pub push_alone-ok :
      q.head + 1 < word
      → q.turn (q.head % 2 ^ k) ≡ q.head
      → push_alone q item ≡ (
        record q {
          head = q.head + 1;
          turn = update q.turn (q.head % 2 ^ k) (q.head + 1);
          data_of = update q.data_of (q.head % 2 ^ k) item;
        },
        returned true,
      )
  unfolding push_alone begin_push step_push check_turn
  push_alone-ok few open_slot =
      rw (slot-mod q.head, open_slot, ==_refl q.head, ==_refl q.head, one_up)
        (ap
          (λ (i : ℕ).
            let r : Queue A × Producer A = (
              record q {
                head = q.head + 1;
                turn = update q.turn i (q.head + 1);
                data_of = update q.data_of i item;
              },
              returned true,
            ) in
            r)
          (slot-mod q.head))
    where
      one_up : add64 q.head 1 ≡ q.head + 1
      one_up = omega arith

-- With one slot a second `push` overwrites the item that waits there: it reports success, and
-- `pop` then finds nothing, though two items were pushed and none was popped.
pub single_slot_overwrites :
    {A : Type 0} (q : Queue A) (item : A)
    → q.mask ≡ 0
    → q.turn 0 ≡ q.head
    → q.head ≡ q.tail + 1
    → q.head + 1 < word
    → let (r, w) = push_alone q item in
      (w ≡ returned true) × (r.data_of 0 ≡ item) × (begin_pop r ≡ popped none)
unfolding begin_pop
single_slot_overwrites q item masked waiting one few =
    rw (push_alone-ok 0 q item masked few at_zero) (
      refl,
      update_same q.data_of (q.head % 2 ^ 0) 0 item (omega arith),
      rw (next_turn, too_far) refl,
    )
  where
    next_turn : update q.turn (q.head % 2 ^ 0) (q.head + 1) (slot q q.tail) ≡ q.head + 1
    next_turn =
        update_same q.turn (q.head % 2 ^ 0) (slot q q.tail) (q.head + 1)
          (omega (arith, slot-mod 0 q item masked q.tail))

    too_far : (q.head + 1 == add64 q.tail 1) ≡ false
    too_far = ground arith

    at_zero : q.turn (q.head % 2 ^ 0) ≡ q.head
    at_zero = ap q.turn (omega arith) ∙ waiting
