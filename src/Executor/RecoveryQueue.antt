-- ===== src/Executor/RecoveryQueue.antt =====
-- src/executor/recovery.cpp: `RecoveryQueue`, a queue of plans with a worker thread. The plan, its
-- result and the manager are parameters, and `execute_recovery` is any function of these. The
-- calls and the steps of the worker follow each other in any order; a wait may end at any time,
-- since it has a timeout.
pub mod Ledger
pub mod Abandoned
mod Tests
use kac.Base.{ℕ, Bool, true, false, not, List, [], ◌∷◌, ◌++◌, if◌then◌else◌}

-- Where the worker thread stands in `worker_loop`.
pub data Worker : Type 0 where
  absent : Worker
  at_test : Worker
  waiting : Worker

pub record RecoveryQueue (P R M : Type 0) : Type 0 where
  pub queue : List P
  pub wakeup : Bool
  pub running : Bool
  pub worker : Worker
  pub manager : M
  pub reported : List R

pub data Event (P : Type 0) : Type 0 where
  enqueues : P → Event P
  starts : Event P
  stops : Event P
  works : Event P

module _ {P R M : Type 0} (execute_recovery : P → M → R × M) where
  pub enqueue : P → RecoveryQueue P R M → RecoveryQueue P R M
  enqueue plan q = record q { queue = q.queue ++ plan ∷ []; wakeup = true }

  pub start : RecoveryQueue P R M → RecoveryQueue P R M
  start q = if q.running then q else record q { running = true; worker = at_test }

  -- `stop`, up to the wait for the worker
  pub stop : RecoveryQueue P R M → RecoveryQueue P R M
  stop q = if not q.running then q else record q { running = false; wakeup = true }

  -- plans executed one after the other, with their results
  pub execute_all : List P → M → List R × M
  execute_all [] m = ([], m)
  execute_all (plan ∷ plans) m =
      let (result, next) = execute_recovery plan m in
      let (results, last) = execute_all plans next in (result ∷ results, last)

  -- "Drain remaining items"
  pub drain : RecoveryQueue P R M → RecoveryQueue P R M
  drain q =
      let (results, last) = execute_all q.queue q.manager in
      record q { queue = []; manager = last; reported = q.reported ++ results; worker = absent }

  -- the front of the queue is executed, if there is one
  pub take_front : List P → RecoveryQueue P R M → RecoveryQueue P R M
  take_front [] q = record q { worker = at_test }
  take_front (plan ∷ plans) q =
      let (result, next) = execute_recovery plan q.manager in
      record q {
        queue = plans;
        manager = next;
        reported = q.reported ++ result ∷ [];
        worker = at_test;
      }

  -- the next step of the worker: the test of its loop, or what follows its wait
  pub work : Worker → RecoveryQueue P R M → RecoveryQueue P R M
  work absent q = q
  work at_test q = if q.running then record q { worker = waiting } else record q { worker = absent }
  work waiting q =
      let woken = record q { wakeup = false } in
      if not q.running then drain woken else take_front q.queue woken

  pub handle : Event P → RecoveryQueue P R M → RecoveryQueue P R M
  handle (enqueues plan) q = enqueue plan q
  handle starts q = start q
  handle stops q = stop q
  handle works q = work q.worker q

  pub handles : List (Event P) → RecoveryQueue P R M → RecoveryQueue P R M
  handles [] q = q
  handles (e ∷ es) q = handles es (handle e q)
