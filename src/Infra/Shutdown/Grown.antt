-- ===== src/Infra/Shutdown/Grown.antt =====
-- What stopping one component after the other adds to the reports of `ShutdownManager`.
use kac.Base.{
  ℕ, ◌≤◌, ◌≡◌, refl, Bool, true, false, not, ◌&&◌, Bool-cases, Option, some, List, [], ◌∷◌, ◌++◌,
  if-Holds, if◌then◌else◌, leb, inl, inr, count_if, ap, ◌∙◌, sym, append_assoc, append-nil, ◌≢◌,
  ◌>>=◌,
}
use mathlib.Core.List.{Memᴰ}
use kac.Infra.Shutdown.{
  ShutdownComponent, ShutdownManager, ShutdownResult, Outside, Ran, returns, throws, stop_component,
  run_callback, after_run, note_stopped, note_state, percent_done, stop_one, stop_all,
}

-- What the code relies on of `std::sort`: the same components, by priority.
pub data IsOrdered : List ShutdownComponent → Type 0 where
  nil : IsOrdered []
  cons :
      {c : ShutdownComponent} {cs : List ShutdownComponent}
      → ((d : ShutdownComponent) → Memᴰ d cs → c.priority ≤ d.priority)
      → IsOrdered cs
      → IsOrdered (c ∷ cs)

pub record IsSort (sort : List ShutdownComponent → List ShutdownComponent) : Type 0 where
  pub ordered : (cs : List ShutdownComponent) → IsOrdered (sort cs)
  pub counts :
      (p : ShutdownComponent → Bool) (cs : List ShutdownComponent)
      → count_if p (sort cs) ≡ count_if p cs

unfoldable pub names : List ShutdownComponent → List (List ℕ)
names [] = []
names (c ∷ cs) = c.name ∷ names cs

-- the names that the progress callback was told
unfoldable pub told : List (List ℕ × ℕ) → List (List ℕ)
told [] = []
told ((name, percent) ∷ progress) = name ∷ told progress

told-append : (xs ys : List (List ℕ × ℕ)) → told (xs ++ ys) ≡ told xs ++ told ys
unfolding told
told-append [] ys = refl
told-append ((name, percent) ∷ xs) ys = ap (name ∷◌) (told-append xs ys)

-- the names of the components of which `p` holds
unfoldable pub names_of : (ShutdownComponent → Bool) → List ShutdownComponent → List (List ℕ)
names_of p [] = []
names_of p (c ∷ cs) = let rest = names_of p cs in if p c then c.name ∷ rest else rest

module _ (p : ShutdownComponent → Bool) where
  listed :
      (xs : List (List ℕ)) (c : ShutdownComponent)
      → p c ≡ true
      → xs ++ c.name ∷ [] ≡ xs ++ names_of p (c ∷ [])
  unfolding names_of
  listed xs c holds = rw holds refl

  unlisted :
      (xs : List (List ℕ)) (c : ShutdownComponent) → p c ≡ false → xs ≡ xs ++ names_of p (c ∷ [])
  unfolding names_of
  unlisted xs c fails = rw fails (sym (append-nil xs))

  names_of-cons :
      (c : ShutdownComponent) (cs : List ShutdownComponent)
      → names_of p (c ∷ []) ++ names_of p cs ≡ names_of p (c ∷ cs)
  unfolding names_of
  names_of-cons c cs = elim (Bool-cases (p c)) [ inl e ↦ rw e refl | inr e ↦ rw e refl ]

  joined :
      (xs : List (List ℕ)) {ys zs : List (List ℕ)} (c : ShutdownComponent)
      (cs : List ShutdownComponent)
      → ys ≡ xs ++ names_of p (c ∷ [])
      → zs ≡ ys ++ names_of p cs
      → zs ≡ xs ++ names_of p (c ∷ cs)
  joined xs c cs first rest =
      rest
      ∙ ap (◌++ names_of p cs) first
      ∙ append_assoc xs (names_of p (c ∷ [])) (names_of p cs)
      ∙ ap (xs ++◌) (names_of-cons c cs)

-- the deadline was not seen to pass
unfoldable pub ends : Ran → Bool
ends (returns elapsed timeout_flag) = not timeout_flag
ends throws = false

-- it was, after the time that the component is given
unfoldable pub ends_over : ℕ → Ran → Bool
ends_over timeout (returns elapsed timeout_flag) = timeout_flag && leb timeout elapsed
ends_over timeout throws = false

-- it was, before that time
unfoldable pub ends_short : ℕ → Ran → Bool
ends_short timeout (returns elapsed timeout_flag) = timeout_flag && not (leb timeout elapsed)
ends_short timeout throws = false

module _ (outside : Outside) where
  unfoldable pub ends_in_time : ShutdownComponent → Bool
  ends_in_time c = ends (run_callback outside c)

  unfoldable pub times_out : ShutdownComponent → Bool
  times_out c = ends_over c.timeout (run_callback outside c)

  unfoldable pub stops_short : ShutdownComponent → Bool
  stops_short c = ends_short c.timeout (run_callback outside c)

  -- What stopping some components adds.
  pub record Grown (cs : List ShutdownComponent) (m n : ShutdownManager) : Type 0 where
    pub order : told n.progress ≡ told m.progress ++ names cs
    pub completed :
        n.result.completed_components ≡ m.result.completed_components ++ names_of ends_in_time cs
    pub timed_out :
        n.result.timeout_components ≡ m.result.timeout_components ++ names_of times_out cs
    pub failed : n.result.failed_components ≡ m.result.failed_components ++ names_of stops_short cs

  Grown-trans :
      {c : ShutdownComponent} {cs : List ShutdownComponent} {m n k : ShutdownManager}
      → Grown (c ∷ []) m n
      → Grown cs n k
      → Grown (c ∷ cs) m k
  unfolding names
  Grown-trans {c = c} {cs = cs} {m = m} a b = record {
    order =
        b.order
        ∙ ap (λ (x : List (List ℕ)). x ++ names cs) a.order
        ∙ append_assoc (told m.progress) (c.name ∷ []) (names cs);
    completed = joined ends_in_time m.result.completed_components c cs a.completed b.completed;
    timed_out = joined times_out m.result.timeout_components c cs a.timed_out b.timed_out;
    failed = joined stops_short m.result.failed_components c cs a.failed b.failed;
  }

  told-one :
      (c : ShutdownComponent) (m : ShutdownManager) (percent : ℕ)
      → told (m.progress ++ (c.name, percent) ∷ []) ≡ told m.progress ++ names (c ∷ [])
  unfolding names told
  told-one c m percent = told-append m.progress ((c.name, percent) ∷ [])

  -- A component whose callback returns is stopped.
  stop_one-Grown :
      (c : ShutdownComponent) (m : ShutdownManager) (ran : Ran)
      → run_callback outside c ≡ ran
      → ran ≢ throws
      → (n : ShutdownManager) × (stop_one outside c m ≡ some n) × Grown (c ∷ []) m n
  unfolding stop_one stop_component after_run note_stopped ends_in_time ends times_out ends_over
      stops_short ends_short
  stop_one-Grown c m throws e sane = absurd (sane refl)
  stop_one-Grown c m (returns elapsed true) e sane =
      let stopped = record c { elapsed = elapsed } in
      let r = m.result in
      (
        note_stopped false stopped m,
        ap
            (λ (r : Ran).
              after_run c r >>= λ (s : Bool × ShutdownComponent). some (note_stopped s.0 s.1 m))
            e,
        if-Holds
            (λ (r : ShutdownResult). Grown (c ∷ []) m (record m {
              components = note_state stopped m.components;
              progress =
                  m.progress ++ (c.name, percent_done (note_state stopped m.components)) ∷ [];
              result = r;
            }))
            (leb c.timeout elapsed)
            (λ over. record {
              order = told-one c m _;
              completed = unlisted ends_in_time r.completed_components c (ap ends e);
              timed_out =
                  listed times_out r.timeout_components c (ap (ends_over c.timeout) e ∙ over);
              failed =
                  unlisted stops_short r.failed_components c
                    (ap (ends_short c.timeout) e ∙ ap not over);
            })
            (λ under. record {
              order = told-one c m _;
              completed = unlisted ends_in_time r.completed_components c (ap ends e);
              timed_out =
                  unlisted times_out r.timeout_components c (ap (ends_over c.timeout) e ∙ under);
              failed =
                  listed stops_short r.failed_components c
                    (ap (ends_short c.timeout) e ∙ ap not under);
            }),
      )
  stop_one-Grown c m (returns elapsed false) e sane = (
    note_stopped true (record c { elapsed = elapsed; completed = true }) m,
    ap
        (λ (r : Ran).
          after_run c r >>= λ (s : Bool × ShutdownComponent). some (note_stopped s.0 s.1 m))
        e,
    record {
      order = told-one c m _;
      completed = listed ends_in_time m.result.completed_components c (ap ends e);
      timed_out = unlisted times_out m.result.timeout_components c (ap (ends_over c.timeout) e);
      failed = unlisted stops_short m.result.failed_components c (ap (ends_short c.timeout) e);
    },
  )

  pub stop_all-Grown :
      (cs : List ShutdownComponent) (m : ShutdownManager)
      → ((c : ShutdownComponent) → run_callback outside c ≢ throws)
      → (n : ShutdownManager) × (stop_all outside cs m ≡ some n) × Grown cs m n
  unfolding stop_all names names_of
  stop_all-Grown [] m sane = (
    m,
    refl,
    record {
      order = sym (append-nil (told m.progress));
      completed = sym (append-nil m.result.completed_components);
      timed_out = sym (append-nil m.result.timeout_components);
      failed = sym (append-nil m.result.failed_components);
    },
  )
  stop_all-Grown (c ∷ cs) m sane =
      let (n, e, g) = stop_one-Grown c m (run_callback outside c) refl (sane c) in
      let (k, d, h) = stop_all-Grown cs n sane in
      (k, ap (λ (o : Option ShutdownManager). o >>= stop_all outside cs) e ∙ d, Grown-trans g h)
