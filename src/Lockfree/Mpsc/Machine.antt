-- ===== src/Lockfree/Mpsc/Machine.antt =====
-- Producers, numbered by ℕ, and the consumer of an `MPSCQueue`, interleaved in any order.
use kac.Base.{ℕ, ◌+◌, ◌<◌, ◌≡◌, Bool, true, false, List, [], ◌∷◌, ◌++◌, ◌==◌, if◌then◌else◌}
use kac.Word.{word}
use kac.Lockfree.Mpsc.{
  Queue, Producer, Consumer, outside, at_cas, returned, resting, at_release, popped, update,
  begin_push, step_push, begin_pop, step_pop,
}

-- `log` are the items in the order in which their producers won a position, and `out` those that
-- `pop` has returned, oldest first. The program keeps neither.
pub record System (A : Type 0) : Type 0 where
  pub queue : Queue A
  pub producer : ℕ → Producer A
  pub consumer : Consumer A
  pub log : List A
  pub out : List A

module _ {A : Type 0} where
  -- A producer wins a position when its exchange moves `head`.
  abbrev pub won : Producer A → Queue A → Queue A → List A → List A
  won (at_cas item head) before after log =
      if before.head == after.head then log else log ++ item ∷ []
  won _ before after log = log

  abbrev pub gave : Consumer A → List A → List A
  gave (at_release item) out = out ++ item ∷ []
  gave _ out = out

  abbrev pub after_push : System A → ℕ → Bool → System A
  after_push s i fails =
      let (q, p) = step_push fails s.queue (s.producer i) in
      record s {
        queue = q;
        producer = update s.producer i p;
        log = won (s.producer i) s.queue q s.log;
      }

  abbrev pub after_pop : System A → System A
  after_pop s =
      let (q, c) = step_pop s.queue s.consumer in
      record s { queue = q; consumer = c; out = gave s.consumer s.out }

  -- A call begins only between calls of the same thread.
  abbrev pub may_push : Producer A → Bool
  may_push outside = true
  may_push (returned done) = true
  may_push _ = false

  abbrev pub may_pop : Consumer A → Bool
  may_pop resting = true
  may_pop (popped result) = true
  may_pop _ = false

  -- The positions are not driven to the limit of
  -- `size_t`.
  pub data Step : System A → System A → Type 0 where
    begins_push :
        (s : System A) (i : ℕ) (item : A)
        → may_push (s.producer i) ≡ true
        → Step s (record s { producer = update s.producer i (begin_push s.queue item) })
    steps_push :
        (s : System A) (i : ℕ) (fails : Bool)
        → s.queue.head + 1 + s.queue.capacity < word
        → Step s (after_push s i fails)
    begins_pop :
        (s : System A)
        → may_pop s.consumer ≡ true
        → Step s (record s { consumer = begin_pop s.queue })
    steps_pop : (s : System A) → Step s (after_pop s)

  pub data Reach (s : System A) : System A → Type 0 where
    here : Reach s s
    later : {t u : System A} → Reach s t → Step t u → Reach s u
