-- ===== src/Executor/RecoveryQueue/Abandoned.antt =====
-- `RecoveryQueue` after a stop that comes while the worker is not in its wait.
use kac.Base.{
  subst, ◌≡◌, refl, sym, ap, ◌∙◌, Bool, true, false, not, List, [], ◌∷◌, ◌++◌, append-nil,
  append_assoc, arith, ◌≢◌, count_if, if-Holds,
}
use kac.Executor.RecoveryQueue.{
  Worker, absent, at_test, waiting, RecoveryQueue, Event, enqueues, starts, stops, works, enqueue,
  stop, work, handle, handles,
}
use kac.Executor.RecoveryQueue.Ledger.{arrivals, own, arrivals-own}

-- The event is a call of `start`.
unfoldable pub is_start : {P : Type 0} → Event P → Bool
is_start starts = true
is_start other = false

module _ {P R M : Type 0} (execute_recovery : P → M → R × M) where
  -- The plans `queue` are left by a worker that does not wait and is to end.
  record Abandoned (queue : List P) (reported : List R) (manager : M) (q : RecoveryQueue P R M)
      : Type 0 where
    pub left : q.queue ≡ queue
    pub silent : q.reported ≡ reported
    pub untouched : q.manager ≡ manager
    pub stopped : q.running ≡ false
    pub awake : q.worker ≢ waiting

  work-Abandoned :
      {queue : List P} {reported : List R} {manager : M} (w : Worker) (q : RecoveryQueue P R M)
      → w ≢ waiting
      → Abandoned queue reported manager q
      → Abandoned queue reported manager (work execute_recovery w q)
  unfolding work
  work-Abandoned absent q awake a = a
  work-Abandoned at_test q awake a = ground (arith, a.stopped)
  work-Abandoned waiting q awake a = absurd (awake refl)

  stop-Abandoned :
      {queue : List P} {reported : List R} {manager : M} (q : RecoveryQueue P R M)
      → q.queue ≡ queue
      → q.reported ≡ reported
      → q.manager ≡ manager
      → q.worker ≢ waiting
      → Abandoned queue reported manager (stop execute_recovery q)
  unfolding stop
  stop-Abandoned {queue} {reported} {manager} q left silent untouched awake =
      if-Holds (Abandoned queue reported manager) (not q.running)
        (λ off. record {
          left = left;
          silent = silent;
          untouched = untouched;
          stopped = ground (arith, off);
          awake = awake;
        })
        (λ on. record {
          left = left;
          silent = silent;
          untouched = untouched;
          stopped = refl;
          awake = awake;
        })

  handle-Abandoned :
      {queue : List P} {reported : List R} {manager : M} (e : Event P) (q : RecoveryQueue P R M)
      → is_start e ≡ false
      → Abandoned queue reported manager q
      → Abandoned (queue ++ own e) reported manager (handle execute_recovery e q)
  unfolding handle own enqueue stop is_start
  handle-Abandoned (enqueues plan) q other a = record {
    left = ap (◌++ (plan ∷ [])) a.left;
    silent = a.silent;
    untouched = a.untouched;
    stopped = a.stopped;
    awake = a.awake;
  }
  handle-Abandoned starts q other a = cc
  handle-Abandoned {queue} {reported} {manager} stops q other a =
      subst (λ l. Abandoned l reported manager (stop execute_recovery q)) (sym (append-nil queue))
        (stop-Abandoned q a.left a.silent a.untouched a.awake)
  handle-Abandoned {queue} {reported} {manager} works q other a =
      subst (λ l. Abandoned l reported manager (work execute_recovery q.worker q))
        (sym (append-nil queue)) (work-Abandoned q.worker q a.awake a)

  handles-Abandoned :
      {reported : List R} {manager : M} (es : List (Event P)) (queue : List P)
      (q : RecoveryQueue P R M)
      → count_if is_start es ≡ 0
      → Abandoned queue reported manager q
      → Abandoned (queue ++ arrivals es) reported manager (handles execute_recovery es q)
  unfolding handles arrivals
  handles-Abandoned {reported} {manager} [] queue q none_started a =
      subst (λ l. Abandoned l reported manager q) (sym (append-nil queue)) a
  handles-Abandoned {reported} {manager} (e ∷ es) queue q none_started a =
      subst (λ l. Abandoned l reported manager (handles execute_recovery (e ∷ es) q))
        (append_assoc queue (own e) (arrivals es) ∙ ap (queue ++◌) (sym (arrivals-own e es)))
        (handles-Abandoned es (queue ++ own e) (handle execute_recovery e q) (omega arith)
          (handle-Abandoned e q (ground arith) a))

  -- After a stop that comes while the worker is not in its wait, and until the next call of start,
  -- no plan is executed, whatever calls and worker steps follow: the plans that waited and those
  -- that are handed in later stay in the queue, in their order, and the manager is not used.
  pub stop-abandons :
      (q : RecoveryQueue P R M) (es : List (Event P))
      → q.worker ≢ waiting
      → count_if is_start es ≡ 0
      → let after = handles execute_recovery (stops ∷ es) q in
        (after.queue ≡ q.queue ++ arrivals es)
        × (after.reported ≡ q.reported)
        × (after.manager ≡ q.manager)
  unfolding handles handle
  stop-abandons q es awake none_started =
      let a =
        handles-Abandoned es q.queue (stop execute_recovery q) none_started
          (stop-Abandoned q refl refl refl awake) in
      (a.left, a.silent, a.untouched)
