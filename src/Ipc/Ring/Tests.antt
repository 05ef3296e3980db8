-- ===== src/Ipc/Ring/Tests.antt =====
-- Tests of `ShmRingBuffer`, and its theorems at a ring whose reader was lapped.
use kac.Base.{
  ℕ, ◌+◌, ◌%◌, ◌<◌, ◌≤◌, ◌≡◌, refl, true, none, some, List, [], ◌∷◌, arith, get_or, zero, suc,
  replicate, ◌++◌,
}
use kac.Ipc.Header.{ShmQueueHeader, shm_magic}
use kac.Ipc.Spsc.{Segment}
use kac.Ipc.Ring.{Handle, push, pop, pop_latest, run, catch_up}
use kac.Ipc.Ring.Log
use kac.Ipc.Ring.Laws.{Fits, Holds, run_refines_log}
use kac.Ipc.Ring.Single.{single_slot_skips}

abbrev header4 : ShmQueueHeader
header4 = record {
  magic = shm_magic;
  version = 1;
  capacity = 4;
  element_size = 8;
  producer_pid = 71;
  consumer_pid = 72;
  state = 1;
}

-- A ring of four slots into which six items went, of which one was read.
abbrev lapped : Segment ℕ
lapped = record { header = header4; head = 6; tail = 1; buffer = 14 ∷ 15 ∷ 12 ∷ 13 ∷ [] }

abbrev lapped_log : Log.Log ℕ
lapped_log = record { items = 10 ∷ 11 ∷ 12 ∷ 13 ∷ 14 ∷ 15 ∷ []; read = 1 }

abbrev ring_handle : Handle
ring_handle = record { valid = true; capacity = 4; mask = 3 }

ring_handle-Fits : Fits 2 ring_handle
ring_handle-Fits = record { usable = refl; sized = refl; masked = refl }

lapped_kept :
    (i : ℕ) → i < 6 → 6 ≤ i + 4 → get_or lapped.buffer (i % 4) 0 ≡ get_or lapped_log.items i 0
lapped_kept zero h l = absurd (omega arith)
lapped_kept (suc zero) h l = absurd (omega arith)
lapped_kept (suc (suc zero)) h l = refl
lapped_kept (suc (suc (suc zero))) h l = refl
lapped_kept (suc (suc (suc (suc zero)))) h l = refl
lapped_kept (suc (suc (suc (suc (suc zero))))) h l = refl
lapped_kept (suc (suc (suc (suc (suc (suc i)))))) h l = absurd (omega arith)

lapped-Holds : Holds 0 2 lapped lapped_log
lapped-Holds = record {
  small = omega arith;
  slots = refl;
  counted = refl;
  no_wrap = omega arith;
  reader = refl;
  behind = omega arith;
  kept = lapped_kept;
}

abbrev ring_script : List (Log.Call ℕ)
ring_script = Log.pops ∷ Log.pushes 16 ∷ Log.pops_latest ∷ Log.pops ∷ []

ring_run_test : run ring_handle ring_handle lapped ring_script ≡ some 13 ∷ some 16 ∷ none ∷ []
unfolding run push pop pop_latest catch_up
ring_run_test = refl

ring_run_refines_log_example :
    run ring_handle ring_handle lapped ring_script ≡ Log.run 3 lapped_log ring_script
ring_run_refines_log_example =
    run_refines_log 0 2 ring_script ring_handle-Fits ring_handle-Fits (omega arith) lapped-Holds
      (omega arith)

abbrev single : Segment ℕ
single = record { header = header4; head = 1; tail = 0; buffer = 10 ∷ [] }

abbrev single_handle : Handle
single_handle = record { valid = true; capacity = 1; mask = 0 }

single_kept :
    (i : ℕ) → i < 1 → 1 ≤ i + 1 → get_or single.buffer (i % 1) 0 ≡ get_or {A = ℕ} (10 ∷ []) i 0
single_kept zero h l = refl
single_kept (suc i) h l = absurd (omega arith)

single-Holds : Holds 0 0 single (record { items = 10 ∷ []; read = 0 })
single-Holds = record {
  small = omega arith;
  slots = refl;
  counted = refl;
  no_wrap = omega arith;
  reader = refl;
  behind = omega arith;
  kept = single_kept;
}

single_handle-Fits : Fits 0 single_handle
single_handle-Fits = record { usable = refl; sized = refl; masked = refl }

single_slot_skips_example :
    run single_handle single_handle single
      (Log.pops ∷ Log.pushes 11 ∷ (replicate 2 Log.pops ++ Log.pushes 12 ∷ Log.pops ∷ []))
    ≡ (pop single_handle single).0 ∷ (replicate 2 none ++ some 12 ∷ [])
single_slot_skips_example =
    single_slot_skips 0 11 12 2 single_handle-Fits single_handle-Fits single-Holds (omega arith)
      (omega arith)
