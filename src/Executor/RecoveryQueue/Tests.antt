-- ===== src/Executor/RecoveryQueue/Tests.antt =====
-- The theorems on `RecoveryQueue` at plans that are numbers, whose execution adds to a total.
use kac.Base.{ℕ, ◌+◌, ◌≡◌, refl, true, false, List, [], ◌∷◌}
use kac.Executor.RecoveryQueue.{
  RecoveryQueue, Event, enqueues, starts, stops, works, absent, at_test, handles,
}
use kac.Executor.RecoveryQueue.Ledger.{Keeps, arrivals, handles-Keeps_all}
use kac.Executor.RecoveryQueue.Abandoned.{stop-abandons, is_start}

abbrev add_up : ℕ → ℕ → ℕ × ℕ
add_up plan total = (total + plan, total + plan)

abbrev fresh : RecoveryQueue ℕ ℕ ℕ
fresh = record {
  queue = [];
  wakeup = false;
  running = false;
  worker = absent;
  manager = 0;
  reported = [];
}

abbrev two_plans : List (Event ℕ)
two_plans =
    enqueues 5 ∷ starts ∷ works ∷ enqueues 6 ∷ works ∷ works ∷ stops ∷ works ∷ enqueues 7 ∷ []

abbrev about_to_test : RecoveryQueue ℕ ℕ ℕ
about_to_test = record fresh { queue = 5 ∷ []; wakeup = true; running = true; worker = at_test }

handles-Keeps_all_example : Keeps add_up 0 (arrivals two_plans) (handles add_up two_plans fresh)
handles-Keeps_all_example = handles-Keeps_all add_up 0 two_plans

stop-abandons_example :
    let after = handles add_up (stops ∷ works ∷ enqueues 6 ∷ works ∷ []) about_to_test in
    (after.queue ≡ 5 ∷ 6 ∷ []) × (after.reported ≡ []) × (after.manager ≡ 0)
unfolding arrivals is_start
stop-abandons_example =
    stop-abandons add_up about_to_test (works ∷ enqueues 6 ∷ works ∷ []) (λ e. cc) refl
