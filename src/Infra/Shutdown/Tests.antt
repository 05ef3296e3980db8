-- ===== src/Infra/Shutdown/Tests.antt =====
-- The theorem on `do_shutdown` with an insertion sort and two components, one of them late.
use kac.Base.{
  ℕ, ◌≤◌, ◌≡◌, refl, Bool, true, false, some, List, [], ◌∷◌, arith, if◌then◌else◌, if-Holds, leb,
  inl, inr, ◌⊎◌, count_if, bit, ◌+◌, ◌≢◌, subst, sym,
}
use mathlib.Core.List.{Memᴰ}
use mathlib.Core.List.Memᴰ
use kac.Infra.Shutdown.{
  ShutdownComponent, ShutdownManager, Outside, throws, initiated, running, do_shutdown,
  run_callback, initiate_shutdown, cancel_shutdown,
}
use kac.Infra.Shutdown.Grown.{IsOrdered, nil, cons, IsSort}
use kac.Infra.Shutdown.Order.{Stopped, do_shutdown-Stopped}
use kac.Infra.Shutdown.Cancel.{cancel_shutdown-still_stops}

put : ShutdownComponent → List ShutdownComponent → List ShutdownComponent
put c [] = c ∷ []
put c (d ∷ ds) = let rest = put c ds in if leb c.priority d.priority then c ∷ d ∷ ds else d ∷ rest

sort : List ShutdownComponent → List ShutdownComponent
sort [] = []
sort (c ∷ cs) = put c (sort cs)

put-from :
    (c x : ShutdownComponent) (ds : List ShutdownComponent)
    → Memᴰ x (put c ds)
    → (x ≡ c) ⊎ Memᴰ x ds
unfolding put
put-from c x [] mem = Memᴰ.cases_cons mem
put-from c x (d ∷ ds) member =
    if-Holds (λ (l : List ShutdownComponent). Memᴰ x l → (x ≡ c) ⊎ Memᴰ x (d ∷ ds))
      (leb c.priority d.priority) (λ e mem. Memᴰ.cases_cons mem)
      (λ e mem. elim (Memᴰ.cases_cons mem) [
        | inl here ↦ inr (Memᴰ.head here)
        | inr later ↦ elim (put-from c x ds later) [
          | inl same ↦ inl same
          | inr deep ↦ inr (Memᴰ.tail deep)
        ]
      ])
      member

put-IsOrdered :
    (c : ShutdownComponent) (ds : List ShutdownComponent) → IsOrdered ds → IsOrdered (put c ds)
unfolding put
put-IsOrdered c [] nil = cons (λ x mem. absurd (Memᴰ.not-nil mem)) nil
put-IsOrdered c (d ∷ ds) (cons least rest) =
    if-Holds IsOrdered (leb c.priority d.priority)
      (λ below.
        cons
          (λ x mem. elim (Memᴰ.cases_cons mem) [
            | inl here ↦
                subst (λ (y : ShutdownComponent). c.priority ≤ y.priority) (sym here)
                  (ground (arith, below))
            | inr later ↦ let far = least x later in ground (arith, below, far)
          ])
          (cons least rest))
      (λ above.
        cons
          (λ x mem. elim (put-from c x ds mem) [
            | inl same ↦
                subst (λ (y : ShutdownComponent). d.priority ≤ y.priority) (sym same)
                  (ground (arith, above))
            | inr deep ↦ least x deep
          ])
          (put-IsOrdered c ds rest))

sort-IsOrdered : (cs : List ShutdownComponent) → IsOrdered (sort cs)
unfolding sort
sort-IsOrdered [] = nil
sort-IsOrdered (c ∷ cs) = put-IsOrdered c (sort cs) (sort-IsOrdered cs)

count_if-put :
    (p : ShutdownComponent → Bool) (c : ShutdownComponent) (ds : List ShutdownComponent)
    → count_if p (put c ds) ≡ bit (p c) + count_if p ds
unfolding put
count_if-put p c [] = refl
count_if-put p c (d ∷ ds) =
    if-Holds
      (λ (l : List ShutdownComponent). count_if p l ≡ bit (p c) + (bit (p d) + count_if p ds))
      (leb c.priority d.priority) (λ e. refl) (λ e. omega (arith, count_if-put p c ds))

count_if-sort :
    (p : ShutdownComponent → Bool) (cs : List ShutdownComponent)
    → count_if p (sort cs) ≡ count_if p cs
unfolding sort
count_if-sort p [] = refl
count_if-sort p (c ∷ cs) = omega (arith, count_if-put p c (sort cs), count_if-sort p cs)

sort-IsSort : IsSort sort
sort-IsSort = record { counts = count_if-sort; ordered = sort-IsOrdered }

abbrev part : ℕ → ℕ → ShutdownComponent
part priority timeout = record {
  name = priority ∷ [];
  has_callback = true;
  priority = priority;
  timeout = timeout;
  completed = false;
  elapsed = 0;
}

abbrev two_parts : ShutdownManager
two_parts = record {
  components = part 500 10 ∷ part 100 3 ∷ [];
  phase = initiated;
  shutting_down = true;
  reason = [];
  result = record {
    phase = running;
    completed_components = [];
    timeout_components = [];
    failed_components = [];
  };
  wakeup = false;
  threads = 1;
  progress = [];
}

-- Every component takes five milliseconds, and nothing throws.
abbrev slow : Outside
slow = record { raises = λ c. false; elapsed = λ c. 5; timeout_flag = λ c. leb c.timeout 5 }

slow_sane : (c : ShutdownComponent) → run_callback slow c ≢ throws
unfolding run_callback
slow_sane c = ground arith

do_shutdown-Stopped_example :
    (n : ShutdownManager) × (do_shutdown slow sort two_parts ≡ some n) × Stopped slow two_parts n
do_shutdown-Stopped_example =
    do_shutdown-Stopped slow sort two_parts sort-IsSort slow_sane refl refl

abbrev at_work : ShutdownManager
at_work = record two_parts { phase = running; shutting_down = false; threads = 0 }

cancel_shutdown-still_stops_example :
    let (cancelled, after) = cancel_shutdown (initiate_shutdown [] at_work) in
    (cancelled ≡ true)
    × (after.phase ≡ running)
    × (after.threads ≡ 1)
    × (after.components ≡ at_work.components)
    × ((n : ShutdownManager) × (do_shutdown slow sort after ≡ some n) × Stopped slow after n)
cancel_shutdown-still_stops_example =
    cancel_shutdown-still_stops slow sort [] at_work sort-IsSort slow_sane refl refl refl
