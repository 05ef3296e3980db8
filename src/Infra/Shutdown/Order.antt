-- ===== src/Infra/Shutdown/Order.antt =====
-- `do_shutdown` stops every component, in the order of priority, and lists each by how it stopped.
use kac.Base.{
  ℕ, ◌≡◌, refl, Bool, true, false, ◌&&◌, some, List, [], ◌∷◌, ◌++◌, arith, if◌then◌else◌, count_if,
  ap, ap₂, ◌∙◌, ◌≢◌, ◌>>=◌, ◌-◌, Option,
}
use kac.Infra.Shutdown.{
  ShutdownComponent, ShutdownManager, Outside, Ran, returns, throws, run_callback, do_shutdown,
  final_phase, is_none_listed, completed_phase, timeout_phase, stopping,
}
use kac.Infra.Shutdown.Grown.{
  IsOrdered, IsSort, names, names_of, told, ends, ends_over, ends_short, ends_in_time, times_out,
  stops_short, stop_all-Grown,
}

module _ (outside : Outside) where
  pub all_in_time : List ShutdownComponent → Bool
  all_in_time [] = true
  all_in_time (c ∷ cs) = ends_in_time outside c && all_in_time cs

  -- What a shutdown of a manager with no component listed as timed out or failed leaves: every
  -- component was stopped once and told to the progress callback, in the order of priority; each of
  -- the three lists has exactly the components that stopped so, in this order; and the phase is
  -- Completed exactly if the deadline passed for none.
  pub record Stopped (m n : ShutdownManager) : Type 0 where
    pub stopped : List ShutdownComponent
    pub by_priority : IsOrdered stopped
    pub everyone : (p : ShutdownComponent → Bool) → count_if p stopped ≡ count_if p m.components
    pub order : told n.progress ≡ told m.progress ++ names stopped
    pub completed :
        n.result.completed_components
        ≡ m.result.completed_components ++ names_of (ends_in_time outside) stopped
    pub timed_out : n.result.timeout_components ≡ names_of (times_out outside) stopped
    pub failed : n.result.failed_components ≡ names_of (stops_short outside) stopped
    pub ended : n.phase ≡ (if all_in_time stopped then completed_phase else timeout_phase)
    pub reported : n.result.phase ≡ n.phase
    pub woken : n.wakeup ≡ true

  none_listed-cons :
      (c : ShutdownComponent) (ran : Ran) (cs : List ShutdownComponent)
      → run_callback outside c ≡ ran
      → ran ≢ throws
      → (is_none_listed (names_of (times_out outside) cs)
          && is_none_listed (names_of (stops_short outside) cs))
        ≡ all_in_time cs
      → (is_none_listed (names_of (times_out outside) (c ∷ cs))
          && is_none_listed (names_of (stops_short outside) (c ∷ cs)))
        ≡ all_in_time (c ∷ cs)
  unfolding is_none_listed names_of all_in_time ends_in_time times_out stops_short ends ends_over
      ends_short
  none_listed-cons c throws cs e sane rest = absurd (sane refl)
  none_listed-cons c (returns elapsed true) cs e sane rest = rw e (ground arith)
  none_listed-cons c (returns elapsed false) cs e sane rest = rw e rest

  -- Nobody is listed as timed out or failed exactly if all returned in time.
  none_listed-eq-all_in_time :
      (cs : List ShutdownComponent)
      → ((c : ShutdownComponent) → run_callback outside c ≢ throws)
      → (is_none_listed (names_of (times_out outside) cs)
          && is_none_listed (names_of (stops_short outside) cs))
        ≡ all_in_time cs
  unfolding is_none_listed names_of all_in_time
  none_listed-eq-all_in_time [] sane = refl
  none_listed-eq-all_in_time (c ∷ cs) sane =
      none_listed-cons c (run_callback outside c) cs refl (sane c)
        (none_listed-eq-all_in_time cs sane)

  -- Where no callback throws, the sort orders by priority and keeps the components, and no component
  -- is listed as timed out or failed before, `do_shutdown` returns and stops every component once,
  -- in the order of priority. It adds to the list of completed components exactly those for which
  -- the deadline was not seen to pass; of the others, exactly those that took their whole timeout
  -- are listed as timed out and the rest as failed; and it ends in Completed if all returned in
  -- time, in Timeout if not.
  pub do_shutdown-Stopped :
      (sort : List ShutdownComponent → List ShutdownComponent) (m : ShutdownManager)
      → IsSort sort
      → ((c : ShutdownComponent) → run_callback outside c ≢ throws)
      → m.result.timeout_components ≡ []
      → m.result.failed_components ≡ []
      → (n : ShutdownManager) × (do_shutdown outside sort m ≡ some n) × Stopped m n
  unfolding do_shutdown final_phase
  do_shutdown-Stopped sort m law sane fresh_t fresh_f =
      let begun : ShutdownManager = record m { phase = stopping; threads = m.threads - 1 } in
      let (k, e, g) = stop_all-Grown outside (sort m.components) begun sane in
      let timed_out =
        g.timed_out ∙ ap (◌++ names_of (times_out outside) (sort m.components)) fresh_t in
      let failed = g.failed ∙ ap (◌++ names_of (stops_short outside) (sort m.components)) fresh_f in
      (
        record k {
          result = record (k.result) { phase = final_phase k.result };
          phase = final_phase k.result;
          wakeup = true;
        },
        ap
            (λ (o : Option ShutdownManager). o >>= λ (last : ShutdownManager). some (record last {
              result = record (last.result) { phase = final_phase last.result };
              phase = final_phase last.result;
              wakeup = true;
            }))
            e,
        record {
          stopped = sort m.components;
          by_priority = law.ordered m.components;
          everyone = λ p. law.counts p m.components;
          order = g.order;
          completed = g.completed;
          timed_out = timed_out;
          failed = failed;
          ended =
              ap (λ (b : Bool). if b then completed_phase else timeout_phase)
                (ap₂ (λ (xs ys : List (List ℕ)). is_none_listed xs && is_none_listed ys) timed_out
                    failed
                  ∙ none_listed-eq-all_in_time (sort m.components) sane);
          reported = refl;
          woken = refl;
        },
      )
