-- ===== src/Ipc/Spsc/Tests.antt =====
-- Tests of `ShmSPSCQueue`, and its theorems at a queue that goes round the end of its buffer.
use kac.Base.{ℕ, ◌≡◌, refl, true, false, none, some, List, [], ◌∷◌, arith}
use kac.Fifo
use kac.Fifo.{Call, Reply, pushes, pops, pushed, popped}
use kac.Ipc.Header.{ShmQueueHeader, shm_magic}
use kac.Ipc.Spsc.{Segment, Handle, init_producer, attach_consumer, push, pop, run}
use kac.Ipc.Spsc.Refine.{Fits, IsValid, contents, init_producer-attach_consumer, run_refines_fifo}

abbrev header4 : ShmQueueHeader
header4 = record {
  magic = shm_magic;
  version = 1;
  capacity = 4;
  element_size = 8;
  producer_pid = 71;
  consumer_pid = 72;
  state = 1;
}

abbrev producer : Handle
producer = record { valid = true; is_producer = true; mask = 3 }

abbrev consumer : Handle
consumer = record { valid = true; is_producer = false; mask = 3 }

-- 7 and 8 in the queue, round the end of the buffer
abbrev wrapped : Segment ℕ
wrapped = record { header = header4; head = 1; tail = 3; buffer = 8 ∷ 0 ∷ 0 ∷ 7 ∷ [] }

wrapped-IsValid : IsValid 2 wrapped
wrapped-IsValid = record {
  small = omega arith;
  slots = refl;
  head_in = omega arith;
  tail_in = omega arith;
}

producer-Fits : Fits 2 producer
producer-Fits = record { usable = refl; masked = refl }

consumer-Fits : Fits 2 consumer
consumer-Fits = record { usable = refl; masked = refl }

abbrev script : List (Call ℕ)
script = pushes 9 ∷ pushes 10 ∷ pops ∷ pops ∷ pops ∷ pops ∷ []

spsc_run_test :
    run producer consumer wrapped script
    ≡ pushed true
      ∷ pushed false
      ∷ popped (some 7)
      ∷ popped (some 8)
      ∷ popped (some 9)
      ∷ popped none
      ∷ []
unfolding run push pop
spsc_run_test = refl

run_refines_fifo_example : run producer consumer wrapped script ≡ Fifo.run 3 (7 ∷ 8 ∷ []) script
run_refines_fifo_example = run_refines_fifo 2 0 script producer-Fits consumer-Fits wrapped-IsValid

attach_example :
    let (p, t) = init_producer 0 8 71 wrapped 4 in
    let (c, u) = attach_consumer 8 72 t in Fits 2 p × Fits 2 c × IsValid 2 u × (contents 0 2 u ≡ [])
attach_example = init_producer-attach_consumer 2 (omega arith) 0 8 71 72 wrapped
