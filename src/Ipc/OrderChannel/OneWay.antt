-- ===== src/Ipc/OrderChannel/OneWay.antt =====
-- What the two sides of an `OrderChannel` see of each other.
use kac.Base.{
  ℕ, ◌-◌, ◌^◌, ◌<◌, ◌≡◌, refl, true, false, Option, none, some, List, [], ◌∷◌, ◌++◌, arith,
  get_elem?, set, length, get_elem?-set_found, get_elem?-append_last, ap, ap₂, ◌∙◌, sym, subst,
  if-Holds, length-append,
}
use kac.Word.{pow2_le_half}
use kac.Ipc.Header.{
  accepts_capacity_iff, rejects_capacity, accepts_header, fresh_header, accepts_header-fresh_header,
}
use kac.Ipc.Spsc.{
  Segment, Handle, init_producer, attach_consumer, ready_segment, handle_of, invalid_handle,
}
use kac.Ipc.Spsc.Refine.{ready-IsValid, handle-Fits}
use kac.Ipc.OrderChannel.{
  SharedMemory, OrderChannel, zeroed, create_engine_side, create_order_manager_side, Act, run,
}
use kac.Ipc.OrderChannel.Linked.{expected, Linked, run-expected}

module _ {A : Type 0} (k : ℕ) (small : k < 64) (zero_item : A) (element_size pid : ℕ) where
  init_producer-ready :
      (s : Segment A)
      → let t = ready_segment zero_item element_size pid (2 ^ k) in
        init_producer zero_item element_size pid s (2 ^ k) ≡ (handle_of t true, t)
  unfolding init_producer
  init_producer-ready s =
      let t = ready_segment zero_item element_size pid (2 ^ k) in
      if-Holds (λ (x : Handle × Segment A). x ≡ (handle_of t true, t)) (rejects_capacity (2 ^ k))
        (λ bad. absurd (ground (arith, bad, accepted))) (λ good. refl)
    where
      accepted : rejects_capacity (2 ^ k) ≡ false
      accepted = (accepts_capacity_iff (2 ^ k) (omega (arith, pow2_le_half k small))).1 (k, refl)

  abbrev attached : ℕ → Segment A
  attached consumer =
      let t = ready_segment zero_item element_size pid (2 ^ k) in
      record t { header = record (t.header) { consumer_pid = consumer } }

  attach_consumer-ready :
      (consumer : ℕ)
      → attach_consumer element_size consumer (ready_segment zero_item element_size pid (2 ^ k))
        ≡ (handle_of (attached consumer) false, attached consumer)
  unfolding attach_consumer ready_segment
  attach_consumer-ready consumer =
      if-Holds
        (λ (x : Handle × Segment A). x ≡ (handle_of (attached consumer) false, attached consumer))
        (accepts_header (fresh_header (2 ^ k) element_size pid) element_size) (λ good. refl)
        (λ bad.
          absurd (
            ground (arith, bad, accepts_header-fresh_header (2 ^ k) element_size pid element_size)))

module _ {Q R : Type 0} (no_request : Q) (no_result : R) (request_size result_size : ℕ) (k : ℕ)
    (small : k < 64) where
  -- what the engine's side makes of the memory
  abbrev requests_of : ℕ → Segment Q
  requests_of pid = ready_segment no_request request_size pid (2 ^ k)

  abbrev engine_of : ℕ → SharedMemory Q R → OrderChannel
  engine_of pid m = record {
    request_shm = length m.orders;
    result_shm = length m.order_results;
    request_queue = handle_of (requests_of pid) true;
    result_queue = invalid_handle;
  }

  abbrev after_engine : ℕ → SharedMemory Q R → SharedMemory Q R
  after_engine pid m = record {
    orders = m.orders ++ requests_of pid ∷ [];
    order_results = m.order_results ++ zeroed no_result (2 ^ k) ∷ [];
  }

  create_engine_side-eq :
      (pid : ℕ) (m : SharedMemory Q R)
      → create_engine_side no_request no_result request_size result_size pid (2 ^ k) m
        ≡ (engine_of pid m, after_engine pid m)
  unfolding create_engine_side attach_consumer zeroed accepts_header
  create_engine_side-eq pid m =
      ap
        (λ (x : Handle × Segment Q). (
          record (engine_of pid m) { request_queue = x.0 },
          record (after_engine pid m) { orders = m.orders ++ x.1 ∷ [] },
        ))
        (init_producer-ready k small no_request request_size pid (zeroed no_request (2 ^ k)))

  abbrev results_of : ℕ → Segment R
  results_of pid = ready_segment no_result result_size pid (2 ^ k)

  abbrev opened : ℕ → ℕ → Segment Q
  opened pid manager_pid = attached k small no_request request_size pid manager_pid

  abbrev manager_of : ℕ → ℕ → SharedMemory Q R → OrderChannel
  manager_of pid manager_pid m = record {
    request_shm = length m.orders - 1;
    result_shm = length m.order_results;
    request_queue = handle_of (opened pid manager_pid) false;
    result_queue = handle_of (results_of manager_pid) true;
  }

  abbrev after_manager : ℕ → ℕ → SharedMemory Q R → SharedMemory Q R
  after_manager pid manager_pid m = record {
    orders = set m.orders (length m.orders - 1) (opened pid manager_pid);
    order_results = m.order_results ++ results_of manager_pid ∷ [];
  }

  create_order_manager_side-eq :
      (pid manager_pid : ℕ) (m : SharedMemory Q R)
      → get_elem? m.orders (length m.orders - 1) ≡ some (requests_of pid)
      → create_order_manager_side no_request no_result request_size result_size manager_pid
          (2 ^ k)
          m
        ≡ some (manager_of pid manager_pid m, after_manager pid manager_pid m)
  unfolding create_order_manager_side
  create_order_manager_side-eq pid manager_pid m at =
      ap
        (λ (o : Option (Segment Q)). elim o [
          | none ↦ none
          | some s ↦
              let x = attach_consumer request_size manager_pid s in
              let y =
                init_producer no_result result_size manager_pid (zeroed no_result (2 ^ k))
                  (2 ^ k) in
              some (
                record (manager_of pid manager_pid m) { request_queue = x.0; result_queue = y.0 },
                record {
                  orders = set m.orders (length m.orders - 1) x.1;
                  order_results = m.order_results ++ y.1 ∷ [];
                },
              )
        ])
        at
      ∙ ap₂
          (λ (x : Handle × Segment Q) (y : Handle × Segment R). some (
            record (manager_of pid manager_pid m) { request_queue = x.0; result_queue = y.0 },
            record {
              orders = set m.orders (length m.orders - 1) x.1;
              order_results = m.order_results ++ y.1 ∷ [];
            },
          ))
          (attach_consumer-ready k small no_request request_size pid manager_pid)
          (init_producer-ready k small no_result result_size manager_pid (zeroed no_result (2 ^ k)))

  -- When the engine makes its side and then the order manager its own, with one capacity of a power
  -- of two, the requests arrive as from a bounded queue of one less, but no result ever arrives: the
  -- engine has attached to a segment that holds zeros and that the manager replaces.
  pub create-run :
      (pid manager_pid : ℕ) (m : SharedMemory Q R)
      → let (engine, n) =
          create_engine_side no_request no_result request_size result_size pid (2 ^ k) m in
        (manager : OrderChannel) × (last : SharedMemory Q R) × (create_order_manager_side no_request
            no_result request_size result_size manager_pid
            (2 ^ k)
            n
          ≡ some (manager, last))
        × ((acts : List (Act Q R)) → run engine manager acts last ≡ expected (2 ^ k - 1) [] [] acts)
  unfolding ready_segment fresh_header
  create-run pid manager_pid m =
      subst
        (λ (x : OrderChannel × SharedMemory Q R).
          (manager : OrderChannel) × (last : SharedMemory Q R) × (create_order_manager_side
              no_request no_result request_size result_size manager_pid (2 ^ k) x.1
            ≡ some (manager, last))
          × ((acts : List (Act Q R)) → run x.0 manager acts last ≡ expected (2 ^ k - 1) [] [] acts))
        (sym (create_engine_side-eq pid m))
        (
          manager_of pid manager_pid n,
          after_manager pid manager_pid n,
          create_order_manager_side-eq pid manager_pid n at,
          λ acts.
              run-expected no_request no_result k (engine_of pid m) (manager_of pid manager_pid n)
                acts (after_manager pid manager_pid n) (opened pid manager_pid)
                (results_of manager_pid) linked
              ∙ ap₂ (λ qs rs. expected (2 ^ k - 1) qs rs acts)
                  (ready-IsValid k small no_request request_size pid 0).1
                  (ready-IsValid k small no_result result_size manager_pid 0).1,
        )
    where
      n : SharedMemory Q R
      n = after_engine pid m

      place : length n.orders - 1 ≡ length m.orders
      place = omega (arith, length-append m.orders (requests_of pid ∷ []))

      at : get_elem? n.orders (length n.orders - 1) ≡ some (requests_of pid)
      at =
          ap (λ (i : ℕ). get_elem? n.orders i) place
          ∙ get_elem?-append_last m.orders (requests_of pid)

      linked :
          Linked Q R k
            (engine_of pid m)
            (manager_of pid manager_pid n)
            (after_manager pid manager_pid n)
            (opened pid manager_pid)
            (results_of manager_pid)
      linked = record {
        one_place = place;
        at_orders =
            ap
              (λ (i : ℕ). get_elem? (set n.orders (length n.orders - 1) (opened pid manager_pid)) i)
              (sym place)
            ∙ get_elem?-set_found n.orders (length n.orders - 1) (requests_of pid)
                (opened pid manager_pid) at;
        at_results = get_elem?-append_last n.order_results (results_of manager_pid);
        asks_fit = handle-Fits k small no_request request_size pid 0 true (requests_of pid) refl;
        takes_fit =
            handle-Fits k small no_request request_size pid 0 false (opened pid manager_pid) refl;
        reports_fit =
            handle-Fits k small no_result result_size manager_pid 0 true (results_of manager_pid)
              refl;
        deaf = refl;
        orders_valid =
            let v = (ready-IsValid k small no_request request_size pid 0).0 in
            record { small = v.small; slots = v.slots; head_in = v.head_in; tail_in = v.tail_in };
        results_valid = (ready-IsValid k small no_result result_size manager_pid 0).0;
      }
