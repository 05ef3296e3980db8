-- ===== src/Lockfree/Mpsc/Pop.antt =====
-- An access of the consumer of `MPSCQueue` keeps the invariant.
use kac.Base.{ℕ, ◌+◌, ◌%◌, ◌^◌, ◌≡◌, ap, ◌∙◌, arith, get_or}
use kac.Bits.{pow2_pos}
use kac.Word.{add64}
use kac.Lockfree.Mpsc.{Consumer, resting, at_take, at_release, popped, slot, step_pop}
use kac.Lockfree.Mpsc.Machine.{System, gave}
use kac.Lockfree.Mpsc.Inv.{Slot, published, taken, free, ConsumerOk, Sound, Inv, slot-mod}
use kac.Lockfree.Mpsc.Release.{release-Sound, release-ProducerOk}

module _ {A : Type 0} (filler : A) (k : ℕ) where
  pub with_consumer :
      (s : System A) (c : Consumer A)
      → Inv filler k s
      → ConsumerOk filler k s.queue s.log c
      → Inv filler k (record s { consumer = c })
  with_consumer s c inv ok = record {
    sound = inv.sound;
    producers = inv.producers;
    unique = inv.unique;
    consumer_ok = ok;
  }

  -- The consumer moves on.
  pub pop-Inv :
      (s : System A) (c : Consumer A)
      → s.consumer ≡ c
      → Inv filler k s
      → ConsumerOk filler k s.queue s.log c
      → let (q, d) = step_pop s.queue c in
        Inv filler k (record s { queue = q; consumer = d; out = gave c s.out })
  unfolding step_pop
  pop-Inv s resting e inv ok = with_consumer s resting inv tt
  pop-Inv s at_take e inv ok =
      with_consumer s (at_release (s.queue.data_of (slot s.queue s.queue.tail))) inv (ok, read_item)
    where
      v : Sound filler k s.queue s.log s.out
      v = inv.sound

      at_tail :
          Slot filler k s.queue s.log s.queue.tail
          → s.queue.data_of (s.queue.tail % 2 ^ k) ≡ get_or s.log s.queue.tail filler
      at_tail (published lt t d) = d
      at_tail (taken lt t) = absurd (omega (arith, ok.1))
      at_tail (free le t) = absurd (omega (arith, ok.1))

      read_item : s.queue.data_of (slot s.queue s.queue.tail) ≡ get_or s.log s.queue.tail filler
      read_item =
          ap s.queue.data_of (slot-mod filler k v s.queue.tail)
          ∙ at_tail (v.slots s.queue.tail (omega arith) (omega (arith, pow2_pos k)))
  pop-Inv s (at_release x) e inv ok =
      rw (slot-mod filler k inv.sound s.queue.tail, round_up, one_up)
        (record {
          sound = release-Sound filler k inv.sound ok.0 x ok.1;
          producers =
              λ j. release-ProducerOk filler k inv.sound ok.0 (s.producer j) (inv.producers j);
          unique = inv.unique;
          consumer_ok = tt;
        })
    where
      round_up : add64 s.queue.tail s.queue.capacity ≡ s.queue.tail + 2 ^ k
      round_up = omega (arith, inv.sound.sized, inv.sound.no_wrap, inv.sound.behind)

      one_up : add64 s.queue.tail 1 ≡ s.queue.tail + 1
      one_up = omega (arith, inv.sound.no_wrap, inv.sound.behind, pow2_pos k)
  pop-Inv s (popped result) e inv ok = with_consumer s (popped result) inv tt
