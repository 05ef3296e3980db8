-- ===== src/Executor/RecoveryQueue/Ledger.antt =====
-- `RecoveryQueue` executes the plans in the order of their arrival, each at most once.
use kac.Base.{
  subst, ◌≡◌, refl, sym, ap, ◌∙◌, Bool, true, false, not, List, [], ◌∷◌, ◌++◌, if◌then◌else◌,
  append-nil, append_assoc, arith,
}
use kac.Executor.RecoveryQueue.{
  Worker, absent, at_test, waiting, RecoveryQueue, Event, enqueues, starts, stops, works, enqueue,
  start, stop, execute_all, drain, take_front, work, handle, handles,
}

-- The plans that a sequence of events hands in.
unfoldable pub arrivals : {P : Type 0} → List (Event P) → List P
arrivals [] = []
arrivals (enqueues plan ∷ es) = plan ∷ arrivals es
arrivals (starts ∷ es) = arrivals es
arrivals (stops ∷ es) = arrivals es
arrivals (works ∷ es) = arrivals es

-- the plans of one event
unfoldable pub own : {P : Type 0} → Event P → List P
own (enqueues plan) = plan ∷ []
own other = []

pub arrivals-own :
    {P : Type 0} (e : Event P) (es : List (Event P)) → arrivals (e ∷ es) ≡ own e ++ arrivals es
unfolding arrivals own
arrivals-own (enqueues plan) es = refl
arrivals-own starts es = refl
arrivals-own stops es = refl
arrivals-own works es = refl

module _ {P R M : Type 0} (execute_recovery : P → M → R × M) where
  execute_all-append :
      (xs ys : List P) (m : M)
      → let (results, next) = execute_all execute_recovery xs m in
        let (others, last) = execute_all execute_recovery ys next in
        execute_all execute_recovery (xs ++ ys) m ≡ (results ++ others, last)
  unfolding execute_all
  execute_all-append [] ys m = refl
  execute_all-append (x ∷ xs) ys m =
      ground (arith, execute_all-append xs ys (execute_recovery x m).1)

  -- Of the plans handed in, in their order, some are executed from the manager `first` on, and the
  -- others wait.
  pub record Keeps (first : M) (handed : List P) (q : RecoveryQueue P R M) : Type 0 where
    pub done : List P
    pub all : handed ≡ done ++ q.queue
    pub executed : execute_all execute_recovery done first ≡ (q.reported, q.manager)

  -- nothing is handed in, and the next plans are executed
  advance-Keeps :
      {first : M} {handed : List P} {q : RecoveryQueue P R M} (r : RecoveryQueue P R M)
      (more : List P)
      → Keeps first handed q
      → q.queue ≡ more ++ r.queue
      → q.reported ++ (execute_all execute_recovery more q.manager).0 ≡ r.reported
      → (execute_all execute_recovery more q.manager).1 ≡ r.manager
      → Keeps first handed r
  advance-Keeps {first} {handed} {q} r more k split told moved = record {
    done = k.done ++ more;
    all = k.all ∙ ap (k.done ++◌) split ∙ sym (append_assoc k.done more r.queue);
    executed = ground (arith, execute_all-append k.done more first, k.executed);
  }

  take_front-Keeps :
      {first : M} {handed : List P} (plans : List P) (q : RecoveryQueue P R M)
      → Keeps first handed q
      → q.queue ≡ plans
      → Keeps first handed (take_front execute_recovery plans (record q { wakeup = false }))
  unfolding take_front execute_all
  take_front-Keeps [] q k e =
      advance-Keeps (record q { wakeup = false; worker = at_test }) [] k refl
        (append-nil q.reported) refl
  take_front-Keeps (plan ∷ plans) q k e =
      advance-Keeps
        (record q {
          queue = plans;
          wakeup = false;
          manager = (execute_recovery plan q.manager).1;
          reported = q.reported ++ (execute_recovery plan q.manager).0 ∷ [];
          worker = at_test;
        })
        (plan ∷ []) k e refl refl

  drain-Keeps :
      {first : M} {handed : List P} (q : RecoveryQueue P R M)
      → Keeps first handed q
      → Keeps first handed (drain execute_recovery (record q { wakeup = false }))
  unfolding drain
  drain-Keeps q k =
      advance-Keeps (drain execute_recovery (record q { wakeup = false })) q.queue k
        (sym (append-nil q.queue)) refl refl

  same-Keeps :
      {first : M} {handed : List P} (q : RecoveryQueue P R M) (wakeup running : Bool)
      (worker : Worker)
      → Keeps first handed q
      → Keeps first handed (record q { wakeup = wakeup; running = running; worker = worker })
  same-Keeps q wakeup running worker k = record {
    done = k.done;
    all = k.all;
    executed = k.executed;
  }

  if-Keeps :
      {first : M} {handed : List P} (b : Bool) (q r : RecoveryQueue P R M)
      → Keeps first handed q
      → Keeps first handed r
      → Keeps first handed (if b then q else r)
  if-Keeps true q r k l = k
  if-Keeps false q r k l = l

  work-Keeps :
      {first : M} {handed : List P} (w : Worker) (q : RecoveryQueue P R M)
      → Keeps first handed q
      → Keeps first handed (work execute_recovery w q)
  unfolding work
  work-Keeps absent q k = k
  work-Keeps at_test q k =
      if-Keeps q.running (record q { worker = waiting }) (record q { worker = absent })
        (same-Keeps q q.wakeup q.running waiting k) (same-Keeps q q.wakeup q.running absent k)
  work-Keeps waiting q k =
      if-Keeps (not q.running) (drain execute_recovery (record q { wakeup = false }))
        (take_front execute_recovery q.queue (record q { wakeup = false })) (drain-Keeps q k)
        (take_front-Keeps q.queue q k refl)

  -- one event, whose plans are handed in
  handle-Keeps :
      {first : M} {handed : List P} (e : Event P) (q : RecoveryQueue P R M)
      → Keeps first handed q
      → Keeps first (handed ++ own e) (handle execute_recovery e q)
  unfolding handle own enqueue start stop
  handle-Keeps {first} {handed} (enqueues plan) q k = record {
    done = k.done;
    all = ap (◌++ (plan ∷ [])) k.all ∙ append_assoc k.done q.queue (plan ∷ []);
    executed = k.executed;
  }
  handle-Keeps {first} {handed} starts q k =
      subst (λ h. Keeps first h (start execute_recovery q)) (sym (append-nil handed))
        (if-Keeps q.running q (record q { running = true; worker = at_test }) k
          (same-Keeps q q.wakeup true at_test k))
  handle-Keeps {first} {handed} stops q k =
      subst (λ h. Keeps first h (stop execute_recovery q)) (sym (append-nil handed))
        (if-Keeps (not q.running) q (record q { running = false; wakeup = true }) k
          (same-Keeps q true false q.worker k))
  handle-Keeps {first} {handed} works q k =
      subst (λ h. Keeps first h (work execute_recovery q.worker q)) (sym (append-nil handed))
        (work-Keeps q.worker q k)

  handles-Keeps :
      {first : M} (handed : List P) (es : List (Event P)) (q : RecoveryQueue P R M)
      → Keeps first handed q
      → Keeps first (handed ++ arrivals es) (handles execute_recovery es q)
  unfolding handles arrivals
  handles-Keeps {first} handed [] q k = subst (λ h. Keeps first h q) (sym (append-nil handed)) k
  handles-Keeps {first} handed (e ∷ es) q k =
      subst (λ h. Keeps first h (handles execute_recovery (e ∷ es) q))
        (append_assoc handed (own e) (arrivals es) ∙ ap (handed ++◌) (sym (arrivals-own e es)))
        (handles-Keeps (handed ++ own e) es (handle execute_recovery e q) (handle-Keeps e q k))

  -- From an empty queue on, in every order of calls and worker steps: of the plans handed in, a
  -- beginning is executed, each once and in the order of arrival, the results are reported in this
  -- order, and the other plans wait in the queue.
  pub handles-Keeps_all :
      (first : M) (es : List (Event P))
      → Keeps first (arrivals es) (
          handles execute_recovery es (record {
            queue = [];
            wakeup = false;
            running = false;
            worker = absent;
            manager = first;
            reported = [];
          }))
  unfolding execute_all
  handles-Keeps_all first es =
      handles-Keeps [] es
        (record {
          queue = [];
          wakeup = false;
          running = false;
          worker = absent;
          manager = first;
          reported = [];
        })
        (record { done = []; all = refl; executed = refl })
