-- ===== src/Executor/Tracker/Lookup.antt =====
-- `get_order` after `on_order_update` gives the update.
use kac.Base.{
  ℕ, zero, suc, ◌≡◌, refl, ap, ◌∙◌, Bool, true, false, not, Option, none, some, List, [], ◌∷◌,
  arith, Option-cases, inl, inr, ◌⊎◌, ℤ, get_elem?, set, find_index, find_index-passes,
}
use kac.Executor.Text.{same_text, same_text_refl, is_empty_text}
use kac.Executor.ClientId.{parse_client_order_id}
use kac.Executor.Number.{Double}
use kac.Executor.Order.{OrderUpdate, has_client_order_id}
use kac.Executor.Tracker.{
  TrackedOrder, OrderTracker, holds_id, find_order, order_at, get_order, apply_update,
  find_or_alloc_dual, link_leg, early_order, reset_order, blank_update, on_order_update,
  alloc_order, complete_request, check_completion, complete_pair, DualOrderTrack, tracks_id,
}

module _ {A : Type 0} (p : A → Bool) where
  -- writing an entry that passes over the first one that passes leaves it the first
  find_index-set_found :
      (xs : List A) (i : ℕ) (v : A)
      → find_index p xs ≡ some i
      → p v ≡ true
      → find_index p (set xs i v) ≡ some i
  find_index-set_found [] i v e passes = absurd (ground arith)
  find_index-set_found (x ∷ xs) zero v e passes = ground arith
  find_index-set_found (x ∷ xs) (suc i) v e passes = ground (arith, find_index-set_found xs i v)

  find_index-set_new :
      (xs : List A) (i : ℕ) (y v : A)
      → find_index p xs ≡ none
      → get_elem? xs i ≡ some y
      → p v ≡ true
      → find_index p (set xs i v) ≡ some i
  find_index-set_new [] i y v e here passes = absurd (ground arith)
  find_index-set_new (x ∷ xs) zero y v e here passes = ground arith
  find_index-set_new (x ∷ xs) (suc i) y v e here passes =
      ground (arith, find_index-set_new xs i y v)

find_index-set_absent :
    {A : Type 0} (p : A → Bool) (xs : List A) (i : ℕ) (v : A)
    → find_index p xs ≡ none
    → p v ≡ false
    → find_index p (set xs i v) ≡ none
find_index-set_absent p [] i v e fails = refl
find_index-set_absent p (x ∷ xs) zero v e fails = ground arith
find_index-set_absent p (x ∷ xs) (suc i) v e fails = ground (arith, find_index-set_absent p xs i v)

get_elem?-set :
    {A : Type 0} (xs : List A) (i : ℕ) (y v : A)
    → get_elem? xs i ≡ some y
    → get_elem? (set xs i v) i ≡ some v
get_elem?-set [] i y v e = absurd (ground arith)
get_elem?-set (x ∷ xs) zero y v e = refl
get_elem?-set (x ∷ xs) (suc i) y v e = get_elem?-set xs i y v e

module _ {D : Type 0} where
  complete_pair-orders :
      (i : ℕ) (track : DualOrderTrack) (bought sold : Option (TrackedOrder D)) (t : OrderTracker D)
      → (complete_pair i track bought sold t).0.orders ≡ t.orders
  unfolding complete_pair
  complete_pair-orders i track none sold t = refl
  complete_pair-orders i track (some b) none t = refl
  complete_pair-orders i track (some b) (some s) t = ground arith

  complete_request-orders :
      (request_id : ℤ) (t : OrderTracker D) → (complete_request request_id t).0.orders ≡ t.orders
  unfolding complete_request check_completion
  complete_request-orders request_id t =
      elim (Option-cases (find_index (tracks_id request_id) t.duals)) [
        | inl missing ↦ ground arith
        | inr (i, found) ↦ elim (Option-cases (get_elem? t.duals i)) [
          | inl outside ↦ ground arith
          | inr (track, here) ↦ ground (
            arith,
            complete_pair-orders i track (order_at t track.buy_idx) (order_at t track.sell_idx) t,
          )
        ]
      ]

  apply_update-orders :
      (update : OrderUpdate D) (idx : ℕ) (order : TrackedOrder D) (t : OrderTracker D)
      → get_elem? t.orders idx ≡ some order
      → (apply_update update idx t).0.orders
        ≡ set t.orders idx (record order { last_update = update; ws_received = true })
  unfolding apply_update
  apply_update-orders update idx order t here = ground (
    arith,
    complete_request-orders order.request_id (record t {
      orders = set t.orders idx (record order { last_update = update; ws_received = true });
    }),
  )

  -- An order that was tracked before, or whose slot is fresh, is found with the update.
  apply_update-get_order :
      (update : OrderUpdate D) (idx : ℕ) (order : TrackedOrder D) (t : OrderTracker D)
      → get_elem? t.orders idx ≡ some order
      → order.active ≡ true
      → (find_order update.client_order_id t ≡ some idx)
        ⊎ (find_order update.client_order_id t ≡ none)
      → get_order update.client_order_id (apply_update update idx t).0
        ≡ some (record order { last_update = update; ws_received = true })
  unfolding get_order find_order order_at holds_id
  apply_update-get_order update idx order t here used known =
      let updated = record order { last_update = update; ws_received = true } in
      let passes : holds_id update.client_order_id updated ≡ true =
        ground (arith, same_text_refl update.client_order_id) in
      let found : find_index (holds_id update.client_order_id) (set t.orders idx updated)
          ≡ some idx =
        elim known [
          | inl old ↦
              find_index-set_found (holds_id update.client_order_id) t.orders idx updated old passes
          | inr new ↦
              find_index-set_new (holds_id update.client_order_id) t.orders idx order updated new
                here passes
        ] in
      ground (
        arith,
        apply_update-orders update idx order t here,
        found,
        get_elem?-set t.orders idx order updated here,
      )

  find_or_alloc_dual-orders :
      (request_id : ℤ) (t : OrderTracker D) → (find_or_alloc_dual request_id t).1.orders ≡ t.orders
  unfolding find_or_alloc_dual
  find_or_alloc_dual-orders request_id t = ground arith

  link_leg-orders :
      (request_id : ℤ) (side : Bool) (idx : ℕ) (t : OrderTracker D)
      → (link_leg request_id side idx t).orders ≡ t.orders
  unfolding link_leg
  link_leg-orders request_id side idx t = ground (arith, find_or_alloc_dual-orders request_id t)

  early_order-unnamed :
      (num : Double D) (now : ℕ) (request_id : ℤ) (side : Bool) (update : OrderUpdate D)
      → has_client_order_id update ≡ true
      → holds_id update.client_order_id (early_order num now request_id side) ≡ false
  unfolding holds_id early_order reset_order blank_update has_client_order_id is_empty_text
      same_text
  early_order-unnamed num now request_id side update named = ground arith

  early_order-active :
      (num : Double D) (now : ℕ) (request_id : ℤ) (side : Bool)
      → (early_order num now request_id side).active ≡ true
  unfolding early_order
  early_order-active num now request_id side = refl

  known-get_order :
      (num : Double D) (now : ℕ) (update : OrderUpdate D) (idx : ℕ) (t : OrderTracker D)
      → has_client_order_id update ≡ true
      → find_order update.client_order_id t ≡ some idx
      → (order : TrackedOrder D) × (get_order update.client_order_id
            (on_order_update num now update t).0
          ≡ some order)
        × (order.last_update ≡ update)
        × (order.ws_received ≡ true)
  unfolding on_order_update find_order holds_id
  known-get_order num now update idx t named known =
      let (order, here, passes) =
        find_index-passes (holds_id update.client_order_id) t.orders idx known in
      (
        record order { last_update = update; ws_received = true },
        ground (arith, apply_update-get_order update idx order t here (ground arith) (inl known)),
        refl,
        refl,
      )

  early-get_order :
      (num : Double D) (now : ℕ) (update : OrderUpdate D) (request_id : ℤ) (side : Bool) (idx : ℕ)
      (t : OrderTracker D)
      → has_client_order_id update ≡ true
      → find_order update.client_order_id t ≡ none
      → parse_client_order_id update.client_order_id ≡ some (request_id, side)
      → alloc_order t ≡ some idx
      → (order : TrackedOrder D) × (get_order update.client_order_id
            (on_order_update num now update t).0
          ≡ some order)
        × (order.last_update ≡ update)
        × (order.ws_received ≡ true)
  unfolding on_order_update find_order alloc_order
  early-get_order num now update request_id side idx t named unknown ours slot =
      let early = early_order num now request_id side in
      let slotted = record t { orders = set t.orders idx early } in
      let linked = link_leg request_id side idx slotted in
      let (old, here, unused) =
        find_index-passes (λ (order : TrackedOrder D). not order.active) t.orders idx slot in
      let kept : linked.orders ≡ set t.orders idx early =
        link_leg-orders request_id side idx slotted in
      let there : get_elem? linked.orders idx ≡ some early =
        ap (λ (xs : List (TrackedOrder D)). get_elem? xs idx) kept
        ∙ get_elem?-set t.orders idx old early here in
      let absent : find_order update.client_order_id linked ≡ none =
        ap (find_index (holds_id update.client_order_id)) kept
        ∙ find_index-set_absent (holds_id update.client_order_id) t.orders idx early unknown
            (early_order-unnamed num now request_id side update named) in
      (
        record early { last_update = update; ws_received = true },
        ground (
          arith,
          apply_update-get_order update idx early linked there
              (early_order-active num now request_id side) (inr absent),
        ),
        refl,
        refl,
      )

  -- An update that carries a client order id, for an order that is tracked or that is the tracker's
  -- own while a slot is free, is what `get_order` gives for that id afterwards.
  pub on_order_update-get_order :
      (num : Double D) (now : ℕ) (update : OrderUpdate D) (t : OrderTracker D)
      → has_client_order_id update ≡ true
      → ((idx : ℕ) × (find_order update.client_order_id t ≡ some idx))
        ⊎ ((pair : ℤ × Bool) × (idx : ℕ) × (parse_client_order_id update.client_order_id
              ≡ some pair)
            × (alloc_order t ≡ some idx))
      → (order : TrackedOrder D) × (get_order update.client_order_id
            (on_order_update num now update t).0
          ≡ some order)
        × (order.last_update ≡ update)
        × (order.ws_received ≡ true)
  on_order_update-get_order num now update t named (inl (idx, known)) =
      known-get_order num now update idx t named known
  on_order_update-get_order num now update t named (inr ((request_id, side), idx, ours, slot)) =
      elim (Option-cases (find_order update.client_order_id t)) [
        | inl unknown ↦ early-get_order num now update request_id side idx t named unknown ours slot
        | inr (old, known) ↦ known-get_order num now update old t named known
      ]
