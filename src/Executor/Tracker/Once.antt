-- ===== src/Executor/Tracker/Once.antt =====
-- The completion callback is called once for each pair that becomes completed.
use kac.Base.{
  ℕ, ◌+◌, ◌≡◌, refl, Bool, true, false, not, ◌&&◌, Option, none, some, List, [], ◌∷◌, ◌++◌, arith,
  Bool-cases, Option-cases, inl, inr, length, length-append, ℤ, get_elem?, set, find_index,
  count_if, find_index-passes, count_if-set, count_if-update_at,
}
use kac.Executor.Number.{Double}
use kac.Executor.Order.{OrderUpdate, is_terminal, has_client_order_id}
use kac.Executor.ClientId.{parse_client_order_id}
use kac.Executor.Tracker.{
  TrackedOrder, DualOrderTrack, OrderTracker, Completion, reset_dual, tracks_id, set_leg,
  find_or_alloc_dual, link_leg, register_order, find_order, alloc_order, order_at, is_done,
  complete_pair, check_completion, complete_request, apply_update, on_order_update, check_timeouts,
  registered_order, early_order,
}

pub is_completed : DualOrderTrack → Bool
is_completed dual = dual.active && dual.completed

tracks_id-active :
    (request_id : ℤ) (dual : DualOrderTrack) → tracks_id request_id dual ≡ true → dual.active ≡ true
unfolding tracks_id
tracks_id-active request_id dual h = ground arith

set_leg-keeps :
    (side : Bool) (idx : ℕ) (dual : DualOrderTrack)
    → is_completed (set_leg side idx dual) ≡ is_completed dual
unfolding set_leg is_completed
set_leg-keeps true idx dual = refl
set_leg-keeps false idx dual = refl

module _ {D : Type 0} where
  -- the pairs in use that are completed
  pub completed_pairs : OrderTracker D → ℕ
  completed_pairs t = count_if is_completed t.duals

  complete_pair-counts :
      (i : ℕ) (track : DualOrderTrack) (bought sold : Option (TrackedOrder D)) (t : OrderTracker D)
      → get_elem? t.duals i ≡ some track
      → track.active ≡ true
      → track.completed ≡ false
      → let (after, reported) = complete_pair i track bought sold t in
        completed_pairs after ≡ completed_pairs t + length reported
  unfolding complete_pair completed_pairs is_completed
  complete_pair-counts i track none sold t found used fresh = omega arith
  complete_pair-counts i track (some b) none t found used fresh = omega arith
  complete_pair-counts i track (some b) (some s) t found used fresh =
      elim (Bool-cases (is_done b && is_done s)) [
        | inl done ↦ ground (
          arith,
          count_if-set is_completed t.duals i track (record track { completed = true }) found,
        )
        | inr waiting ↦ ground arith
      ]

  complete_request-counts :
      (request_id : ℤ) (t : OrderTracker D)
      → let (after, reported) = complete_request request_id t in
        completed_pairs after ≡ completed_pairs t + length reported
  unfolding complete_request check_completion
  complete_request-counts request_id t =
      elim (Option-cases (find_index (tracks_id request_id) t.duals)) [
        | inl missing ↦ ground arith
        | inr (i, found) ↦
            let (track, here, passes) = find_index-passes (tracks_id request_id) t.duals i found in
            elim (Bool-cases track.completed) [
              | inl before ↦ ground arith
              | inr fresh ↦ ground (
                arith,
                complete_pair-counts i track (order_at t track.buy_idx) (order_at t track.sell_idx)
                    t here (tracks_id-active request_id track passes) fresh,
              )
            ]
      ]

  find_or_alloc_dual-keeps :
      (request_id : ℤ) (t : OrderTracker D)
      → completed_pairs (find_or_alloc_dual request_id t).1 ≡ completed_pairs t
  unfolding find_or_alloc_dual completed_pairs is_completed reset_dual
  find_or_alloc_dual-keeps request_id t =
      elim (Option-cases (find_index (tracks_id request_id) t.duals)) [
        | inr (i, found) ↦ ground arith
        | inl missing ↦
            elim (Option-cases (find_index (λ (dual : DualOrderTrack). not dual.active) t.duals)) [
              | inl full ↦ ground arith
              | inr (i, found) ↦
                  let (track, here, unused) =
                    find_index-passes (λ (dual : DualOrderTrack). not dual.active) t.duals i
                      found in
                  ground (
                    arith,
                    count_if-set is_completed t.duals i track
                        (record reset_dual { active = true; request_id = request_id }) here,
                  )
            ]
      ]

  link_leg-keeps :
      (request_id : ℤ) (side : Bool) (idx : ℕ) (t : OrderTracker D)
      → completed_pairs (link_leg request_id side idx t) ≡ completed_pairs t
  unfolding link_leg completed_pairs
  link_leg-keeps request_id side idx t = elim (Option-cases (find_or_alloc_dual request_id t).0) [
    | inl none_left ↦ ground (arith, find_or_alloc_dual-keeps request_id t)
    | inr (i, found) ↦ ground (
      arith,
      find_or_alloc_dual-keeps request_id t,
      count_if-update_at is_completed (find_or_alloc_dual request_id t).1.duals i (set_leg side idx)
          (set_leg-keeps side idx),
    )
  ]

  apply_update-counts :
      (update : OrderUpdate D) (idx : ℕ) (t : OrderTracker D)
      → let (after, reported) = apply_update update idx t in
        completed_pairs after ≡ completed_pairs t + length reported
  unfolding apply_update completed_pairs
  apply_update-counts update idx t = elim (Option-cases (get_elem? t.orders idx)) [
    | inl missing ↦ ground arith
    | inr (order, found) ↦ elim (Bool-cases (is_terminal update.status)) [
      | inr going ↦ ground arith
      | inl ended ↦ ground (
        arith,
        complete_request-counts order.request_id (record t {
          orders = set t.orders idx (record order { last_update = update; ws_received = true });
        }),
      )
    ]
  ]

  on_order_update-counts :
      (num : Double D) (now : ℕ) (update : OrderUpdate D) (t : OrderTracker D)
      → let (after, reported) = on_order_update num now update t in
        completed_pairs after ≡ completed_pairs t + length reported
  unfolding on_order_update completed_pairs
  on_order_update-counts num now update t = elim (Bool-cases (has_client_order_id update)) [
    | inr unnamed ↦ ground arith
    | inl named ↦ elim (Option-cases (find_order update.client_order_id t)) [
      | inr (idx, known) ↦ ground (arith, apply_update-counts update idx t)
      | inl unknown ↦ elim (Option-cases (parse_client_order_id update.client_order_id)) [
        | inl foreign ↦ ground arith
        | inr ((request_id, side), ours) ↦ elim (Option-cases (alloc_order t)) [
          | inl full ↦ ground arith
          | inr (idx, slot) ↦
              let slotted = record t {
                orders = set t.orders idx (early_order num now request_id side);
              } in
              ground (
                arith,
                link_leg-keeps request_id side idx slotted,
                apply_update-counts update idx (link_leg request_id side idx slotted),
              )
        ]
      ]
    ]
  ]

  register_order-keeps :
      (num : Double D) (now : ℕ) (id : List ℕ) (exchange_order_id : Option (List ℕ))
      (t : OrderTracker D)
      → completed_pairs (register_order num now id exchange_order_id t) ≡ completed_pairs t
  unfolding register_order completed_pairs
  register_order-keeps num now id exchange_order_id t =
      elim (Option-cases (parse_client_order_id id)) [
        | inl foreign ↦ ground arith
        | inr ((request_id, side), ours) ↦ elim (Option-cases (find_order id t)) [
          | inr (idx, known) ↦ ground arith
          | inl unknown ↦ elim (Option-cases (alloc_order t)) [
            | inl full ↦ ground arith
            | inr (idx, slot) ↦ ground (
              arith,
              link_leg-keeps request_id side idx (record t {
                orders =
                    set t.orders idx
                      (registered_order num now request_id side id exchange_order_id);
              }),
            )
          ]
        ]
      ]

-- The calls that other parts make, the callbacks of the completion among them.
pub data Call (D : Type 0) : Type 0 where
  register : (now : ℕ) → (id : List ℕ) → (exchange_id : Option (List ℕ)) → Call D
  update : (now : ℕ) → OrderUpdate D → Call D
  timeouts : (now : ℕ) → (ws_timeout_ms : ℕ) → Call D

module _ {D : Type 0} (num : Double D) where
  unfoldable pub call : Call D → OrderTracker D → OrderTracker D × List (Completion D)
  unfolding register_order on_order_update check_timeouts
  call (register now id exchange_id) t = (register_order num now id exchange_id t, [])
  call (update now news) t = on_order_update num now news t
  call (timeouts now ws_timeout_ms) t = ((check_timeouts now ws_timeout_ms t).0, [])

  unfoldable pub calls : List (Call D) → OrderTracker D → OrderTracker D × List (Completion D)
  calls [] t = (t, [])
  calls (c ∷ cs) t =
      let (next, reported) = call c t in
      let (after, later) = calls cs next in (after, reported ++ later)

  call-counts :
      (c : Call D) (t : OrderTracker D)
      → let (after, reported) = call c t in
        completed_pairs after ≡ completed_pairs t + length reported
  unfolding call check_timeouts completed_pairs
  call-counts (register now id exchange_id) t =
      omega (arith, register_order-keeps num now id exchange_id t)
  call-counts (update now news) t = on_order_update-counts num now news t
  call-counts (timeouts now ws_timeout_ms) t = omega arith

  -- In every sequence of registrations, updates and timeout checks, the completion callback is
  -- called exactly as often as pairs become completed.
  pub calls-counts :
      (cs : List (Call D)) (t : OrderTracker D)
      → let (after, reported) = calls cs t in
        completed_pairs after ≡ completed_pairs t + length reported
  unfolding calls
  calls-counts [] t = omega arith
  calls-counts (c ∷ cs) t =
      let (next, reported) = call c t in
      let (after, later) = calls cs next in
      omega (arith, call-counts c t, calls-counts cs next, length-append reported later)
