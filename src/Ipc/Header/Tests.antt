-- ===== src/Ipc/Header/Tests.antt =====
-- Tests of ipc_types.hpp.
use kac.Base.{ℕ, ◌^◌, ◌≡◌, ◌↔◌, refl, true, false, arith}
use kac.Ipc.Header.{rejects_capacity, accepts_capacity_iff, shm_queue_size}

accepts_capacity_iff_example : (rejects_capacity 4096 ≡ false) ↔ ((k : ℕ) × (4096 ≡ 2 ^ k))
accepts_capacity_iff_example = accepts_capacity_iff 4096 (omega arith)

capacity_tests :
    (rejects_capacity 4096 ≡ false) × (rejects_capacity 0 ≡ true) × (rejects_capacity 24 ≡ true)
unfolding rejects_capacity
capacity_tests = (refl, refl, refl)

queue_size_test : shm_queue_size 4096 128 ≡ 524480
unfolding shm_queue_size
queue_size_test = refl
