-- ===== src/Lockfree/Mpsc/Safety.antt =====
-- What holds of every reachable state of an `MPSCQueue` of two slots or more.
use native.Mathlib.Nat.{mod-eq_of_lt, mod_self}
use kac.Base.{
  ℕ, ◌+◌, ◌-◌, ◌%◌, ◌^◌, ◌≤◌, ◌<◌, ◌≡◌, ◌≢◌, inl, inr, refl, sym, ap, ◌∙◌, true, false, some, [],
  ◌==◌, arith, length, Bool-cases, ==_iff, take, prefix_of_get_or, bit_and,
}
use kac.Bits.{pow2_pos, bit_and-mask}
use kac.Ipc.Header.{rejects_capacity, accepts_capacity_iff}
use kac.Word.{add64, sub64, pow2_le_half}
use kac.Lockfree.Mpsc.{
  Producer, outside, at_turn, at_cas, reloading, claimed, filled, returned, resting, slot, make,
  begin_push, begin_pop, size_approx,
}
use kac.Lockfree.Mpsc.Machine.{
  System, Step, Reach, here, later, begins_push, steps_push, begins_pop, steps_pop,
}
use kac.Lockfree.Mpsc.Inv.{
  Slot, published, taken, free, ProducerOk, ConsumerOk, Ready, owns, Sound, Inv, slot-mod, apart,
}
use kac.Lockfree.Mpsc.Push.{push-Inv, reads}
use kac.Lockfree.Mpsc.Pop.{pop-Inv, with_consumer}

module _ {A : Type 0} (filler : A) (k : ℕ) where
  begin_pop-ok :
      (s : System A) → Inv filler k s → ConsumerOk filler k s.queue s.log (begin_pop s.queue)
  unfolding begin_pop
  begin_pop-ok s inv =
      elim (Bool-cases (s.queue.turn (slot s.queue s.queue.tail) == add64 s.queue.tail 1)) [
        | inl e ↦
            rw (e, begin_pop)
              (ready e (v.slots s.queue.tail (omega arith) (omega (arith, pow2_pos k))))
        | inr e ↦ rw (e, begin_pop) tt
      ]
    where
      v : Sound filler k s.queue s.log s.out
      v = inv.sound

      turn_at :
          (s.queue.turn (slot s.queue s.queue.tail) == add64 s.queue.tail 1) ≡ true
          → s.queue.turn (s.queue.tail % 2 ^ k) ≡ s.queue.tail + 1
      turn_at e =
          ap s.queue.turn (sym (slot-mod filler k v s.queue.tail))
          ∙ (==_iff _ _).0 e
          ∙ omega (arith, v.no_wrap, v.behind, pow2_pos k)

      ready :
          (s.queue.turn (slot s.queue s.queue.tail) == add64 s.queue.tail 1) ≡ true
          → Slot filler k s.queue s.log s.queue.tail
          → Ready filler k s.queue
      ready e (published lt t d) = (lt, t)
      ready e (taken lt t) = (lt, turn_at e)
      ready e (free le t) = absurd (omega (arith, turn_at e))

  -- Every access of every thread keeps the invariant.
  pub Step-Inv : 1 ≤ k → {s t : System A} → Step s t → Inv filler k s → Inv filler k t
  unfolding begin_push
  Step-Inv two (begins_push s i item between) inv =
      reads filler k s i (begin_push s.queue item) inv (omega arith) refl
  Step-Inv two (steps_push s i fails few) inv =
      push-Inv filler k s i fails (s.producer i) refl two (omega (arith, inv.sound.sized)) inv
        (inv.producers i)
  Step-Inv two (begins_pop s between) inv =
      with_consumer filler k s (begin_pop s.queue) inv (begin_pop-ok s inv)
  Step-Inv two (steps_pop s) inv = pop-Inv filler k s s.consumer refl inv inv.consumer_ok

  pub Reach-Inv : 1 ≤ k → {s t : System A} → Reach s t → Inv filler k s → Inv filler k t
  Reach-Inv two here inv = inv
  Reach-Inv two (later r st) inv = Step-Inv two st (Reach-Inv two r inv)

-- A new queue, before any call.
abbrev pub start : {A : Type 0} → (ℕ → A) → ℕ → System A
start garbage k = record {
  queue = record {
    capacity = 2 ^ k;
    mask = 2 ^ k - 1;
    head = 0;
    tail = 0;
    turn = λ i. i;
    data_of = garbage;
  };
  producer = λ _. outside;
  consumer = resting;
  log = [];
  out = [];
}

module _ {A : Type 0} (filler : A) (garbage : ℕ → A) (k : ℕ) (small : k < 64) where
  -- The constructor accepts a power of two, and builds that queue.
  pub make-start : make garbage (2 ^ k) ≡ some ((start garbage k).queue)
  unfolding make
  make-start = rw (accepted, mask) refl
    where
      accepted : rejects_capacity (2 ^ k) ≡ false
      accepted = (accepts_capacity_iff (2 ^ k) (omega (arith, pow2_le_half k small))).1 (k, refl)

      mask : sub64 (2 ^ k) 1 ≡ 2 ^ k - 1
      mask = omega (arith, pow2_pos k, pow2_le_half k small)

  pub start-Inv : Inv filler k (start garbage k)
  start-Inv = record {
    sound = record {
      masked = refl;
      sized = refl;
      counted = refl;
      behind = omega arith;
      bounded = omega arith;
      no_wrap = omega (arith, pow2_le_half k small);
      slots = λ p lo hi. free (omega arith) (mod-eq_of_lt (omega arith));
      gone = refl;
      in_order = λ p lt. absurd (omega arith);
    };
    producers = λ i. tt;
    unique = λ i j p h. absurd (cc);
    consumer_ok = tt;
  }

  module _ (two : 1 ≤ k) {t : System A} (r : Reach (start garbage k) t) where
    inv : Inv filler k t
    inv = Reach-Inv filler k two r start-Inv

    -- However the threads interleave, the items that came out are those that went in, each once
    -- and in the order in which the producers won their positions; at most the capacity are
    -- on the way.
    pub out-prefix :
        (t.out ≡ take (length t.out) t.log)
        × (length t.out ≤ length t.log)
        × (length t.log ≤ length t.out + 2 ^ k)
    out-prefix = (
      prefix_of_get_or filler t.out t.log (omega (arith, v.gone, v.counted, v.behind))
          (λ p lt. v.in_order p (omega (arith, v.gone))),
      omega (arith, v.gone, v.counted, v.behind),
      omega (arith, v.gone, v.counted, v.bounded),
    )
      where
        v : Sound filler k t.queue t.log t.out
        v = inv.sound

    -- Two producers between their exchange and their hand-over never write to one slot.
    pub owners_apart :
        (i j p r : ℕ)
        → i ≢ j
        → owns filler k (t.producer i) ≡ some p
        → owns filler k (t.producer j) ≡ some r
        → slot t.queue p ≢ slot t.queue r
    owners_apart i j p r ne hp hr clash =
        apart filler k t.queue.tail p r lo_p hi_p lo_r hi_r other
          (sym (slot-mod filler k v p) ∙ clash ∙ slot-mod filler k v r)
      where
        v : Sound filler k t.queue t.log t.out
        v = inv.sound

        within :
            (w : Producer A)
            → ProducerOk filler k t.queue t.log w
            → (a : ℕ) → owns filler k w ≡ some a
            → (t.queue.tail ≤ a) × (a < t.queue.head)
        within outside ok a h = cc
        within (at_turn x b) ok a h = cc
        within (at_cas x b) ok a h = cc
        within (reloading x) ok a h = cc
        within (claimed x b) ok a h =
            let e : b ≡ a = cc in (omega (arith, ok.from_tail), omega (arith, ok.to_head))
        within (filled x b) ok a h =
            let e : b ≡ a = cc in (omega (arith, ok.0.from_tail), omega (arith, ok.0.to_head))
        within (returned b) ok a h = cc

        lo_p : t.queue.tail ≤ p
        lo_p = (within (t.producer i) (inv.producers i) p hp).0

        lo_r : t.queue.tail ≤ r
        lo_r = (within (t.producer j) (inv.producers j) r hr).0

        hi_p : p < t.queue.tail + 2 ^ k
        hi_p = omega (arith, (within (t.producer i) (inv.producers i) p hp).1, v.bounded)

        hi_r : r < t.queue.tail + 2 ^ k
        hi_r = omega (arith, (within (t.producer j) (inv.producers j) r hr).1, v.bounded)

        other : p ≢ r
        other e = ne (inv.unique i j p hp (hr ∙ ap some (sym e)))

    -- `size_approx` counts the items on the way, but gives 0 when the queue is full.
    pub size_approx-eq :
        (length t.log < length t.out + 2 ^ k → size_approx t.queue ≡ length t.log - length t.out)
        × (length t.log ≡ length t.out + 2 ^ k → size_approx t.queue ≡ 0)
    unfolding size_approx
    size_approx-eq = (
      λ room.
          counted
          ∙ mod-eq_of_lt (omega (arith, v.gone, v.counted, v.behind))
          ∙ omega (arith, v.gone, v.counted),
      λ full. counted ∙ ap (λ (n : ℕ). n % 2 ^ k) (all_of full) ∙ mod_self (2 ^ k),
    )
      where
        v : Sound filler k t.queue t.log t.out
        v = inv.sound

        counted : size_approx t.queue ≡ (t.queue.head - t.queue.tail) % 2 ^ k
        counted =
            ap (bit_and (sub64 t.queue.head t.queue.tail)) v.masked
            ∙ bit_and-mask k (sub64 t.queue.head t.queue.tail)
            ∙ ap (λ (n : ℕ). n % 2 ^ k) (omega (arith, v.behind, v.no_wrap))

        all_of : length t.log ≡ length t.out + 2 ^ k → t.queue.head - t.queue.tail ≡ 2 ^ k
        all_of full = omega (arith, v.gone, v.counted)
