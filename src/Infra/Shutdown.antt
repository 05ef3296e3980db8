-- ===== src/Infra/Shutdown.antt =====
-- src/infra/shutdown.cpp: `ShutdownManager`. `do_shutdown` runs in a detached thread that a call
-- starts; here it is one step, at any time after the call, so calls that come while it runs are left
-- out. Whether the callback of a component throws, how long its stop takes and whether the watching
-- thread sees the deadline pass are a parameter, as is `std::sort`, which may order components of one
-- priority in any way. The priorities are not negative. Times are
-- milliseconds; a progress callback is set, and the total time, the error message and the output to stderr are left out.
pub mod Grown
pub mod Order
pub mod Cancel
mod Tests
use kac.Base.{
  ℕ, zero, suc, ◌+◌, ◌-◌, ◌*◌, ◌/◌, Bool, true, false, not, ◌&&◌, ◌||◌, Option, none, some, List,
  [], ◌∷◌, ◌++◌, if◌then◌else◌, leb, length, count_if, ◌>>=◌,
}
use kac.Executor.Text.{same_text, is_empty_text}

pub data ShutdownPhase : Type 0 where
  running : ShutdownPhase
  initiated : ShutdownPhase
  stopping : ShutdownPhase
  completed_phase : ShutdownPhase
  timeout_phase : ShutdownPhase

pub record ShutdownComponent : Type 0 where
  pub name : List ℕ
  pub has_callback : Bool
  pub priority : ℕ
  pub timeout : ℕ
  pub completed : Bool
  pub elapsed : ℕ

pub record ShutdownResult : Type 0 where
  pub phase : ShutdownPhase
  pub completed_components : List (List ℕ)
  pub timeout_components : List (List ℕ)
  pub failed_components : List (List ℕ)

pub record ShutdownManager : Type 0 where
  pub components : List ShutdownComponent
  pub phase : ShutdownPhase
  pub shutting_down : Bool
  pub reason : List ℕ
  pub result : ShutdownResult
  pub wakeup : Bool
  pub threads : ℕ
  pub progress : List (List ℕ × ℕ)

-- What lies outside: whether the callback of a component throws, the time that its stop takes, and
-- whether the watching thread has seen the deadline pass, which it may also do of a component without
-- a callback.
pub record Outside : Type 0 where
  pub raises : ShutdownComponent → Bool
  pub elapsed : ShutdownComponent → ℕ
  pub timeout_flag : ShutdownComponent → Bool

-- How a component stopped: after some time, with the flag of the watching thread, or by an
-- exception of its callback.
pub data Ran : Type 0 where
  returns : (elapsed : ℕ) → (timeout_flag : Bool) → Ran
  throws : Ran

-- "Requested"
abbrev pub requested : List ℕ
requested = 82 ∷ 101 ∷ 113 ∷ 117 ∷ 101 ∷ 115 ∷ 116 ∷ 101 ∷ 100 ∷ []

unfoldable pub has_name : List ℕ → ShutdownComponent → Bool
has_name name c = same_text c.name name

pub update_or_add : ShutdownComponent → List ShutdownComponent → List ShutdownComponent
update_or_add new [] = new ∷ []
update_or_add new (c ∷ components) =
    let rest = update_or_add new components in
    if has_name new.name c
    then record c {
      has_callback = new.has_callback;
      priority = new.priority;
      timeout = new.timeout;
    }
      ∷ components
    else c ∷ rest

pub register_component : List ℕ → Bool → ℕ → ℕ → ShutdownManager → ShutdownManager
register_component name has_callback priority timeout m = record m {
  components =
      update_or_add
        (record {
          name = name;
          has_callback = has_callback;
          priority = priority;
          timeout = timeout;
          completed = false;
          elapsed = 0;
        })
        m.components;
}

pub drop_named : List ℕ → List ShutdownComponent → List ShutdownComponent
drop_named name [] = []
drop_named name (c ∷ components) =
    let rest = drop_named name components in if has_name name c then rest else c ∷ rest

pub unregister_component : List ℕ → ShutdownManager → ShutdownManager
unregister_component name m = record m { components = drop_named name m.components }

pub initiate_shutdown : List ℕ → ShutdownManager → ShutdownManager
initiate_shutdown reason m = if m.shutting_down then m else record m {
  shutting_down = true;
  reason = if is_empty_text reason then requested else reason;
  phase = initiated;
  threads = suc m.threads;
}

pub force_shutdown : ShutdownManager → ShutdownManager
force_shutdown m = record m { shutting_down = true; phase = timeout_phase; wakeup = true }

pub is_initiated : ShutdownPhase → Bool
is_initiated initiated = true
is_initiated other = false

pub cancel_shutdown : ShutdownManager → Bool × ShutdownManager
cancel_shutdown m =
    if is_initiated m.phase
    then (true, record m { phase = running; shutting_down = false; reason = [] })
    else (false, m)

pub is_completed : ShutdownComponent → Bool
is_completed c = c.completed

pub progress_percent : ShutdownManager → ℕ
progress_percent m = elim m.components [
  | [] ↦ if m.shutting_down then 100 else 0
  | c ∷ components ↦ count_if is_completed m.components * 100 / length m.components
]

-- the state of the component of this name
unfoldable pub note_state : ShutdownComponent → List ShutdownComponent → List ShutdownComponent
note_state done [] = []
note_state done (c ∷ components) =
    let rest = note_state done components in
    if has_name done.name c
    then record c { completed = done.completed; elapsed = done.elapsed } ∷ components
    else c ∷ rest

unfoldable pub percent_done : List ShutdownComponent → ℕ
percent_done [] = 100
percent_done (c ∷ components) =
    count_if is_completed (c ∷ components) * 100 / length (c ∷ components)

-- the progress callback is told, and the name is put to one of the three lists
unfoldable pub note_stopped : Bool → ShutdownComponent → ShutdownManager → ShutdownManager
note_stopped success c m =
    let components = note_state c m.components in
    let r = m.result in
    record m {
      components = components;
      progress = m.progress ++ (c.name, percent_done components) ∷ [];
      result =
          if success
          then record r { completed_components = r.completed_components ++ c.name ∷ [] }
          else if leb c.timeout c.elapsed
          then record r { timeout_components = r.timeout_components ++ c.name ∷ [] }
          else record r { failed_components = r.failed_components ++ c.name ∷ [] };
    }

unfoldable pub is_none_listed : List (List ℕ) → Bool
is_none_listed [] = true
is_none_listed (name ∷ names) = false

unfoldable pub final_phase : ShutdownResult → ShutdownPhase
final_phase r =
    if is_none_listed r.timeout_components && is_none_listed r.failed_components
    then completed_phase
    else timeout_phase

-- An exception leaves a thread that was not joined, so the program is ended.
unfoldable pub after_run : ShutdownComponent → Ran → Option (Bool × ShutdownComponent)
after_run c throws = none
after_run c (returns elapsed true) = some (false, record c { elapsed = elapsed })
after_run c (returns elapsed false) = some (true, record c { elapsed = elapsed; completed = true })

unfoldable pub run_callback : Outside → ShutdownComponent → Ran
run_callback outside c =
    if c.has_callback && outside.raises c
    then throws
    else returns (outside.elapsed c) (outside.timeout_flag c)

unfoldable pub stop_component : Outside → ShutdownComponent → Option (Bool × ShutdownComponent)
stop_component outside c = after_run c (run_callback outside c)

module _ (outside : Outside) where
  unfoldable pub stop_one : ShutdownComponent → ShutdownManager → Option ShutdownManager
  stop_one c m = stop_component outside c >>= λ (stopped : Bool × ShutdownComponent).
      some (note_stopped stopped.0 stopped.1 m)

  unfoldable pub stop_all : List ShutdownComponent → ShutdownManager → Option ShutdownManager
  stop_all [] m = some m
  stop_all (c ∷ components) m =
      stop_one c m >>= λ (next : ShutdownManager). stop_all components next

  -- `do_shutdown`; `none` where the program is ended
  unfoldable pub do_shutdown :
      (List ShutdownComponent → List ShutdownComponent) → ShutdownManager → Option ShutdownManager
  do_shutdown sort m =
      stop_all (sort m.components) (record m { phase = stopping; threads = m.threads - 1 })
      >>= λ (last : ShutdownManager). some (record last {
        result = record (last.result) { phase = final_phase last.result };
        phase = final_phase last.result;
        wakeup = true;
      })
