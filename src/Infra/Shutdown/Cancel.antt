-- ===== src/Infra/Shutdown/Cancel.antt =====
-- `cancel_shutdown` after `initiate_shutdown`.
use kac.Base.{
  ℕ, suc, ◌≡◌, refl, ◌≢◌, true, false, some, List, [], arith, if-Holds, if◌then◌else◌, subst, sym,
}
use kac.Infra.Shutdown.{
  ShutdownComponent, ShutdownManager, Outside, throws, running, initiated, run_callback,
  do_shutdown, initiate_shutdown, cancel_shutdown, is_initiated, requested,
}
use kac.Executor.Text.{is_empty_text}
use kac.Infra.Shutdown.Grown.{IsSort}
use kac.Infra.Shutdown.Order.{Stopped, do_shutdown-Stopped}

-- Where no callback throws and there are no earlier results, a shutdown that is initiated and at
-- once cancelled is reported as cancelled and the phase is Running again, but the thread that was
-- started is still there, and when it runs it stops all components.
pub cancel_shutdown-still_stops :
    (outside : Outside) (sort : List ShutdownComponent → List ShutdownComponent) (reason : List ℕ)
    (m : ShutdownManager)
    → IsSort sort
    → ((c : ShutdownComponent) → run_callback outside c ≢ throws)
    → m.shutting_down ≡ false
    → m.result.timeout_components ≡ []
    → m.result.failed_components ≡ []
    → let (cancelled, after) = cancel_shutdown (initiate_shutdown reason m) in
      (cancelled ≡ true)
      × (after.phase ≡ running)
      × (after.threads ≡ suc m.threads)
      × (after.components ≡ m.components)
      × ((n : ShutdownManager) × (do_shutdown outside sort after ≡ some n)
          × Stopped outside after n)
unfolding cancel_shutdown initiate_shutdown is_initiated
cancel_shutdown-still_stops outside sort reason m law sane idle fresh_t fresh_f =
    subst P (sym started) (
      refl,
      refl,
      refl,
      refl,
      do_shutdown-Stopped outside sort
          (record begun { phase = running; shutting_down = false; reason = [] }) law sane fresh_t
          fresh_f,
    )
  where
    begun : ShutdownManager
    begun = record m {
      shutting_down = true;
      reason = if is_empty_text reason then requested else reason;
      phase = initiated;
      threads = suc m.threads;
    }

    started : initiate_shutdown reason m ≡ begun
    started =
        if-Holds (λ (x : ShutdownManager). x ≡ begun) m.shutting_down
          (λ busy. absurd (ground (arith, busy, idle))) (λ free. refl)

    P : ShutdownManager → Type 0
    P x =
        let (cancelled, after) = cancel_shutdown x in
        (cancelled ≡ true)
        × (after.phase ≡ running)
        × (after.threads ≡ suc m.threads)
        × (after.components ≡ m.components)
        × ((n : ShutdownManager) × (do_shutdown outside sort after ≡ some n)
            × Stopped outside after n)
