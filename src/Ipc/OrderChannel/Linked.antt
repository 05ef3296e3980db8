-- ===== src/Ipc/OrderChannel/Linked.antt =====
-- Two channels that share the requests and of which one has no handle on the results.
use kac.Base.{
  ℕ, ◌-◌, ◌^◌, ◌≡◌, refl, Bool, false, not, Option, none, some, List, [], ◌∷◌, arith, get_elem?,
  set, get_elem?-set_found, set-found, ap, ◌∙◌, sym, Option-cases, inl, inr, if-Holds,
}
use kac.Fifo
use kac.Ipc.Spsc.{Segment, Handle, push, pop}
use kac.Ipc.Spsc.Refine.{
  Fits, IsValid, contents, push-IsValid, pop-IsValid, push_refines, pop_refines,
}
use kac.Ipc.OrderChannel.{
  SharedMemory, OrderChannel, on_segment, push_request, pop_request, push_result, pop_result, Act,
  asks, takes, reports, learns, Told, stored, request, result, run,
}

-- The requests are a bounded queue; the results go to a bounded queue that nobody reads.
unfoldable pub expected : {Q R : Type 0} → ℕ → List Q → List R → List (Act Q R) → List (Told Q R)
unfolding Fifo.push Fifo.pop
expected room qs rs [] = []
expected room qs rs (asks q ∷ acts) =
    let (done, next) = Fifo.push room qs q in stored done ∷ expected room next rs acts
expected room qs rs (takes ∷ acts) =
    let (item, next) = Fifo.pop qs in request item ∷ expected room next rs acts
expected room qs rs (reports r ∷ acts) =
    let (done, next) = Fifo.push room rs r in stored done ∷ expected room qs next acts
expected room qs rs (learns ∷ acts) = result none ∷ expected room qs rs acts

on_segment-found :
    {A B : Type 0} (missing : B) (f : Segment A → B × Segment A) (i : ℕ)
    (segments : List (Segment A)) (s : Segment A)
    → get_elem? segments i ≡ some s
    → on_segment missing f i segments ≡ ((f s).0, set segments i ((f s).1))
unfolding on_segment
on_segment-found missing f i segments s at =
    ap
      (λ (o : Option (Segment _)). elim o [
        | none ↦ (missing, segments)
        | some t ↦ ((f t).0, set segments i ((f t).1))
      ])
      at

on_segment-missing :
    {A B : Type 0} (missing : B) (f : Segment A → B × Segment A) (i : ℕ)
    (segments : List (Segment A))
    → get_elem? segments i ≡ none
    → on_segment missing f i segments ≡ (missing, segments)
unfolding on_segment
on_segment-missing missing f i segments at =
    ap
      (λ (o : Option (Segment _)). elim o [
        | none ↦ (missing, segments)
        | some t ↦ ((f t).0, set segments i ((f t).1))
      ])
      at

-- The two channels share the requests, but the engine has no handle on the results.
pub record Linked (Q R : Type 0) (k : ℕ) (engine manager : OrderChannel) (m : SharedMemory Q R)
    (s : Segment Q) (r : Segment R) : Type 0 where
  pub one_place : manager.request_shm ≡ engine.request_shm
  pub at_orders : get_elem? m.orders engine.request_shm ≡ some s
  pub at_results : get_elem? m.order_results manager.result_shm ≡ some r
  pub asks_fit : Fits k engine.request_queue
  pub takes_fit : Fits k manager.request_queue
  pub reports_fit : Fits k manager.result_queue
  pub deaf : engine.result_queue.valid ≡ false
  pub orders_valid : IsValid k s
  pub results_valid : IsValid k r

module _ {Q R : Type 0} (no_request : Q) (no_result : R) (k : ℕ)
    (engine manager : OrderChannel) where
  -- a call on the requests, then the rest
  pop-deaf : {A : Type 0} (h : Handle) (s : Segment A) → h.valid ≡ false → pop h s ≡ (none, s)
  unfolding pop
  pop-deaf h s deaf =
      if-Holds (λ (x : Option _ × Segment _). x ≡ (none, s)) (not h.valid) (λ e. refl)
        (λ e. absurd (ground (arith, e, deaf)))

  -- a call without a handle leaves the segment, and the list of segments with it
  set-deaf :
      {A : Type 0} (h : Handle) (i : ℕ) (segments : List (Segment A))
      → h.valid ≡ false
      → on_segment none (pop h) i segments ≡ (none, segments)
  set-deaf h i segments deaf = elim (Option-cases (get_elem? segments i)) [
    | inl missing ↦ on_segment-missing none (pop h) i segments missing
    | inr (s, at) ↦
        on_segment-found none (pop h) i segments s at
        ∙ ap (λ (x : Option _ × Segment _). (x.0, set segments i x.1)) (pop-deaf h s deaf)
        ∙ ap (λ (l : List (Segment _)). (none, l)) (set-found segments i s at)
  ]

  pop_result-deaf :
      (m : SharedMemory Q R) → engine.result_queue.valid ≡ false → pop_result engine m ≡ (none, m)
  unfolding pop_result
  pop_result-deaf m deaf =
      ap (λ (x : Option R × List (Segment R)). (x.0, record m { order_results = x.1 }))
        (set-deaf engine.result_queue engine.result_shm m.order_results deaf)

  pub run-expected :
      (acts : List (Act Q R)) (m : SharedMemory Q R) (s : Segment Q) (r : Segment R)
      → Linked Q R k engine manager m s r
      → run engine manager acts m
        ≡ expected (2 ^ k - 1) (contents no_request k s) (contents no_result k r) acts
  unfolding run expected push_request pop_request push_result
  run-expected [] m s r l = refl
  run-expected (asks q ∷ acts) m s r l =
      let a = push engine.request_queue s q in
      ap
        (λ (x : Bool × List (Segment Q)).
          stored x.0 ∷ run engine manager acts (record m { orders = x.1 }))
        (on_segment-found false (λ t. push engine.request_queue t q) engine.request_shm m.orders s
          l.at_orders)
      ∙ ap (stored a.0 ∷◌) (
          run-expected acts (record m { orders = set m.orders engine.request_shm a.1 }) a.1 r
            (record {
              one_place = l.one_place;
              at_orders = get_elem?-set_found m.orders engine.request_shm s a.1 l.at_orders;
              at_results = l.at_results;
              asks_fit = l.asks_fit;
              takes_fit = l.takes_fit;
              reports_fit = l.reports_fit;
              deaf = l.deaf;
              orders_valid = push-IsValid k l.asks_fit l.orders_valid q;
              results_valid = l.results_valid;
            }))
      ∙ ap
          (λ (x : Bool × List Q).
            stored x.0 ∷ expected (2 ^ k - 1) x.1 (contents no_result k r) acts)
          (push_refines k l.asks_fit l.orders_valid no_request q)
  run-expected (takes ∷ acts) m s r l =
      let a = pop manager.request_queue s in
      let at = ap (λ i. get_elem? m.orders i) l.one_place ∙ l.at_orders in
      ap
        (λ (x : Option Q × List (Segment Q)).
          request x.0 ∷ run engine manager acts (record m { orders = x.1 }))
        (on_segment-found none (pop manager.request_queue) manager.request_shm m.orders s at)
      ∙ ap (request a.0 ∷◌) (
          run-expected acts (record m { orders = set m.orders manager.request_shm a.1 }) a.1 r
            (record {
              one_place = l.one_place;
              at_orders =
                  ap (λ i. get_elem? (set m.orders manager.request_shm a.1) i) (sym l.one_place)
                  ∙ get_elem?-set_found m.orders manager.request_shm s a.1 at;
              at_results = l.at_results;
              asks_fit = l.asks_fit;
              takes_fit = l.takes_fit;
              reports_fit = l.reports_fit;
              deaf = l.deaf;
              orders_valid = pop-IsValid k l.takes_fit l.orders_valid;
              results_valid = l.results_valid;
            }))
      ∙ ap
          (λ (x : Option Q × List Q).
            request x.0 ∷ expected (2 ^ k - 1) x.1 (contents no_result k r) acts)
          (pop_refines k l.takes_fit l.orders_valid no_request)
  run-expected (reports q ∷ acts) m s r l =
      let a = push manager.result_queue r q in
      ap
        (λ (x : Bool × List (Segment R)).
          stored x.0 ∷ run engine manager acts (record m { order_results = x.1 }))
        (on_segment-found false (λ t. push manager.result_queue t q) manager.result_shm
          m.order_results r l.at_results)
      ∙ ap (stored a.0 ∷◌) (
          run-expected acts
            (record m { order_results = set m.order_results manager.result_shm a.1 }) s a.1
            (record {
              one_place = l.one_place;
              at_orders = l.at_orders;
              at_results =
                  get_elem?-set_found m.order_results manager.result_shm r a.1 l.at_results;
              asks_fit = l.asks_fit;
              takes_fit = l.takes_fit;
              reports_fit = l.reports_fit;
              deaf = l.deaf;
              orders_valid = l.orders_valid;
              results_valid = push-IsValid k l.reports_fit l.results_valid q;
            }))
      ∙ ap
          (λ (x : Bool × List R).
            stored x.0 ∷ expected (2 ^ k - 1) (contents no_request k s) x.1 acts)
          (push_refines k l.reports_fit l.results_valid no_result q)
  run-expected (learns ∷ acts) m s r l =
      ap (λ (x : Option R × SharedMemory Q R). result x.0 ∷ run engine manager acts x.1)
        (pop_result-deaf m l.deaf)
      ∙ ap (result none ∷◌) (run-expected acts m s r l)
