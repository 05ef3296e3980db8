-- ===== src/Lockfree/Mpsc/Tests.antt =====
-- A run of two producers and the consumer of an `MPSCQueue` of two slots, and the theorems at it.
use kac.Base.{
  ℕ, ◌+◌, ◌-◌, ◌^◌, ◌≤◌, ◌<◌, ◌≡◌, ◌≢◌, refl, true, false, none, [], ◌∷◌, arith, length, take,
}
use kac.Lockfree.Mpsc.{
  Queue, claimed, returned, popped, update, slot, begin_push, check_turn, step_push, begin_pop,
  step_pop, size_approx,
}
use kac.Lockfree.Mpsc.Machine.{
  System, Reach, here, later, begins_push, steps_push, begins_pop, steps_pop, after_push, after_pop,
}
use kac.Lockfree.Mpsc.Safety.{start, out-prefix, owners_apart, size_approx-eq}
use kac.Lockfree.Mpsc.Single.{push_alone, single_slot_overwrites}
use kac.Lockfree.Mpsc.Full.{fails_only_when_full}

abbrev fresh : System ℕ
fresh = start (λ _. 0) 1

abbrev begin_at : System ℕ → ℕ → ℕ → System ℕ
begin_at s i item = record s { producer = update s.producer i (begin_push s.queue item) }

-- Both producers have loaded the same head; the first wins position 0, the other retries and wins
-- position 1.
abbrev s2 : System ℕ
s2 = begin_at (begin_at fresh 0 7) 1 8

abbrev s4 : System ℕ
s4 = after_push (after_push s2 0 false) 1 false

abbrev s6 : System ℕ
s6 = after_push (after_push s4 0 false) 1 false

abbrev s8 : System ℕ
s8 = after_push (after_push s6 1 false) 1 false

reach8 : Reach fresh s8
unfolding begin_push step_push check_turn
reach8 =
    later
      (later
        (later
          (later
            (later
              (later (later (later here (begins_push _ 0 7 refl)) (begins_push _ 1 8 refl))
                (steps_push _ 0 false (omega arith)))
              (steps_push _ 1 false (omega arith)))
            (steps_push _ 0 false (omega arith)))
          (steps_push _ 1 false (omega arith)))
        (steps_push _ 1 false (omega arith)))
      (steps_push _ 1 false (omega arith))

both_own : (s8.producer 0 ≡ claimed 7 0) × (s8.producer 1 ≡ claimed 8 1)
unfolding begin_push step_push check_turn
both_own = (refl, refl)

owners_apart_example : slot s8.queue 0 ≢ slot s8.queue 1
unfolding begin_push step_push check_turn
owners_apart_example =
    owners_apart 0 (λ _. 0) 1 (omega arith) (omega arith) reach8 0 1 0 1 (omega arith) refl refl

-- The first producer hands its item over, and the consumer takes it.
abbrev s10 : System ℕ
s10 = after_push (after_push s8 0 false) 0 false

abbrev s11 : System ℕ
s11 = record s10 { consumer = begin_pop s10.queue }

abbrev s13 : System ℕ
s13 = after_pop (after_pop s11)

reach13 : Reach fresh s13
unfolding begin_push step_push check_turn begin_pop step_pop
reach13 =
    later
      (later
        (later
          (later (later reach8 (steps_push _ 0 false (omega arith)))
            (steps_push _ 0 false (omega arith)))
          (begins_pop _ refl))
        (steps_pop _))
      (steps_pop _)

out13 : (s13.out ≡ 7 ∷ []) × (s13.log ≡ 7 ∷ 8 ∷ [])
unfolding begin_push step_push check_turn begin_pop step_pop
out13 = (refl, refl)

out-prefix_example :
    (s13.out ≡ take (length s13.out) s13.log)
    × (length s13.out ≤ length s13.log)
    × (length s13.log ≤ length s13.out + 2 ^ 1)
out-prefix_example = out-prefix 0 (λ _. 0) 1 (omega arith) (omega arith) reach13

size_approx-eq_example :
    (length s8.log < length s8.out + 2 ^ 1 → size_approx s8.queue ≡ length s8.log - length s8.out)
    × (length s8.log ≡ length s8.out + 2 ^ 1 → size_approx s8.queue ≡ 0)
size_approx-eq_example = size_approx-eq 0 (λ _. 0) 1 (omega arith) (omega arith) reach8

-- A third producer begins a push of 9 into the full queue.
abbrev s9 : System ℕ
s9 = begin_at s8 2 9

reach9 : Reach fresh s9
unfolding begin_push step_push check_turn
reach9 = later reach8 (begins_push _ 2 9 refl)

fails_only_when_full_example : s9.queue.head ≡ s9.queue.tail + 2 ^ 1
unfolding begin_push step_push check_turn
fails_only_when_full_example =
    fails_only_when_full 0 (λ _. 0) 1 (omega arith) (omega arith) reach9 2 false refl refl

-- A queue of one slot in which 5 waits.
abbrev one_waiting : Queue ℕ
one_waiting = record { capacity = 1; mask = 0; head = 1; tail = 0; turn = λ _. 1; data_of = λ _. 5 }

single_slot_overwrites_example :
    let (r, w) = push_alone one_waiting 6 in
    (w ≡ returned true) × (r.data_of 0 ≡ 6) × (begin_pop r ≡ popped none)
single_slot_overwrites_example = single_slot_overwrites one_waiting 6 refl refl refl (omega arith)
