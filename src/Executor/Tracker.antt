-- ===== src/Executor/Tracker.antt =====
-- src/executor/order_tracker.cpp: `OrderTracker`, its state and the operations on it, each as one
-- step under its lock. An index of -1 is `none`. What a call reports through a callback it returns.
-- Times are milliseconds of a steady clock.
pub mod Once
pub mod Timeouts
pub mod Lookup
mod Tests
pub mod Cleanup
use kac.Base.{
  ℕ, zero, suc, ◌-◌, Bool, true, false, not, ◌&&◌, ◌||◌, Option, none, some, List, [], ◌∷◌, ◌==◌,
  ltb, if◌then◌else◌, ℤ, pos, negsuc, get_elem?, set, length, find_index, count_if, update_at,
}
use kac.Executor.Number.{Double}
use kac.Executor.Text.{same_text}
use kac.Executor.ClientId.{parse_client_order_id}
use kac.Executor.Order.{
  OrderUpdate, upbit, buy, pending, is_terminal, has_client_order_id, set_order_id,
  update_client_order_id,
}

pub record TrackedOrder (D : Type 0) : Type 0 where
  pub last_update : OrderUpdate D
  pub request_id : ℤ
  pub is_buy_side : Bool
  pub registered : Bool
  pub ws_received : Bool
  pub active : Bool
  pub timeout_escalated : Bool
  pub created_at_ms : ℕ

pub record DualOrderTrack : Type 0 where
  pub request_id : ℤ
  pub buy_idx : Option ℕ
  pub sell_idx : Option ℕ
  pub completed : Bool
  pub active : Bool

pub record OrderTracker (D : Type 0) : Type 0 where
  pub orders : List (TrackedOrder D)
  pub duals : List DualOrderTrack

-- What the completion callback is given.
pub record Completion (D : Type 0) : Type 0 where
  pub request_id : ℤ
  pub bought : TrackedOrder D
  pub sold : TrackedOrder D

pub same_id : ℤ → ℤ → Bool
same_id (pos a) (pos b) = a == b
same_id (negsuc a) (negsuc b) = a == b
same_id a b = false

-- `DualOrderTrack::reset`
pub reset_dual : DualOrderTrack
reset_dual = record {
  request_id = pos 0;
  buy_idx = none;
  sell_idx = none;
  completed = false;
  active = false;
}

pub tracks_id : ℤ → DualOrderTrack → Bool
tracks_id request_id dual = dual.active && same_id dual.request_id request_id

pub set_leg : Bool → ℕ → DualOrderTrack → DualOrderTrack
set_leg is_buy_side idx dual =
    if is_buy_side then record dual { buy_idx = some idx } else record dual { sell_idx = some idx }

module _ {D : Type 0} where
  -- `OrderUpdate{}`
  pub blank_update : Double D → OrderUpdate D
  blank_update num = record {
    exchange = upbit;
    side = buy;
    status = pending;
    is_maker = false;
    order_id = [];
    client_order_id = [];
    filled_qty = num.zero_qty;
    remaining_qty = num.zero_qty;
    avg_price = num.zero_qty;
    last_fill_price = num.zero_qty;
    last_fill_qty = num.zero_qty;
    commission = num.zero_qty;
    timestamp_ms = 0;
  }

  -- `TrackedOrder::reset`
  pub reset_order : Double D → TrackedOrder D
  reset_order num = record {
    last_update = blank_update num;
    request_id = pos 0;
    is_buy_side = false;
    registered = false;
    ws_received = false;
    active = false;
    timeout_escalated = false;
    created_at_ms = 0;
  }

  pub holds_id : List ℕ → TrackedOrder D → Bool
  holds_id id order = order.active && same_text order.last_update.client_order_id id

  pub find_order : List ℕ → OrderTracker D → Option ℕ
  find_order id t = find_index (holds_id id) t.orders

  -- the slot that `alloc_order` takes; the caller fills it after the reset
  pub alloc_order : OrderTracker D → Option ℕ
  alloc_order t = find_index (λ (order : TrackedOrder D). not order.active) t.orders

  pub find_or_alloc_dual : ℤ → OrderTracker D → Option ℕ × OrderTracker D
  find_or_alloc_dual request_id t = elim (find_index (tracks_id request_id) t.duals) [
    | some i ↦ (some i, t)
    | none ↦ elim (find_index (λ (dual : DualOrderTrack). not dual.active) t.duals) [
      | none ↦ (none, t)
      | some i ↦ (
        some i,
        record t {
          duals = set t.duals i (record reset_dual { active = true; request_id = request_id });
        },
      )
    ]
  ]

  -- a new order in slot `idx`, linked to the pair of its request
  pub link_leg : ℤ → Bool → ℕ → OrderTracker D → OrderTracker D
  link_leg request_id is_buy_side idx t =
      let (dual_idx, linked) = find_or_alloc_dual request_id t in
      elim dual_idx [
        | none ↦ linked
        | some i ↦ record linked { duals = update_at linked.duals i (set_leg is_buy_side idx) }
      ]

  pub name_exchange_order : Option (List ℕ) → OrderUpdate D → OrderUpdate D
  name_exchange_order none update = update
  name_exchange_order (some id) update = set_order_id id update

  -- the slot that `register_order` fills
  pub registered_order : Double D → ℕ → ℤ → Bool → List ℕ → Option (List ℕ) → TrackedOrder D
  registered_order num now request_id is_buy_side id exchange_order_id = record (reset_order num) {
    active = true;
    registered = true;
    request_id = request_id;
    is_buy_side = is_buy_side;
    created_at_ms = now;
    last_update =
        name_exchange_order exchange_order_id (update_client_order_id id (blank_update num));
  }

  -- the slot of an order whose first update comes before its registration
  pub early_order : Double D → ℕ → ℤ → Bool → TrackedOrder D
  early_order num now request_id is_buy_side = record (reset_order num) {
    active = true;
    registered = false;
    request_id = request_id;
    is_buy_side = is_buy_side;
    created_at_ms = now;
  }

  pub register_order : Double D → ℕ → List ℕ → Option (List ℕ) → OrderTracker D → OrderTracker D
  register_order num now id exchange_order_id t = elim (parse_client_order_id id) [
    | none ↦ t
    | some (request_id, is_buy_side) ↦ elim (find_order id t) [
      | some idx ↦ record t {
        orders = update_at t.orders idx (λ order. record order {
          registered = true;
          last_update = name_exchange_order exchange_order_id order.last_update;
        });
      }
      | none ↦ elim (alloc_order t) [
        | none ↦ t
        | some idx ↦ link_leg request_id is_buy_side idx (record t {
          orders =
              set t.orders idx
                (registered_order num now request_id is_buy_side id exchange_order_id);
        })
      ]
    ]
  ]

  pub order_at : OrderTracker D → Option ℕ → Option (TrackedOrder D)
  order_at t none = none
  order_at t (some i) = get_elem? t.orders i

  pub is_done : TrackedOrder D → Bool
  is_done order = order.ws_received && is_terminal order.last_update.status

  -- both legs are there: the pair is completed when both are done
  pub complete_pair :
      ℕ
      → DualOrderTrack
      → Option (TrackedOrder D)
      → Option (TrackedOrder D)
      → OrderTracker D
      → OrderTracker D × List (Completion D)
  complete_pair i track (some bought) (some sold) t =
      if is_done bought && is_done sold
      then (
        record t { duals = set t.duals i (record track { completed = true }) },
        record { request_id = track.request_id; bought = bought; sold = sold } ∷ [],
      )
      else (t, [])
  complete_pair i track bought sold t = (t, [])

  pub check_completion : ℕ → DualOrderTrack → OrderTracker D → OrderTracker D × List (Completion D)
  check_completion i track t =
      if track.completed
      then (t, [])
      else complete_pair i track (order_at t track.buy_idx) (order_at t track.sell_idx) t

  -- the first active pair of the request
  pub complete_request : ℤ → OrderTracker D → OrderTracker D × List (Completion D)
  complete_request request_id t = elim (find_index (tracks_id request_id) t.duals) [
    | none ↦ (t, [])
    | some i ↦ elim (get_elem? t.duals i) [
      | none ↦ (t, [])
      | some track ↦ check_completion i track t
    ]
  ]

  -- what `on_order_update` does with the slot of the order
  pub apply_update : OrderUpdate D → ℕ → OrderTracker D → OrderTracker D × List (Completion D)
  apply_update update idx t = elim (get_elem? t.orders idx) [
    | none ↦ (t, [])
    | some order ↦
        let updated = record t {
          orders = set t.orders idx (record order { last_update = update; ws_received = true });
        } in
        if is_terminal update.status
        then complete_request order.request_id updated
        else (updated, [])
  ]

  pub on_order_update :
      Double D → ℕ → OrderUpdate D → OrderTracker D → OrderTracker D × List (Completion D)
  on_order_update num now update t =
      if not (has_client_order_id update)
      then (t, [])
      else elim (find_order update.client_order_id t) [
        | some idx ↦ apply_update update idx t
        | none ↦ elim (parse_client_order_id update.client_order_id) [
          | none ↦ (t, [])
          | some (request_id, is_buy_side) ↦ elim (alloc_order t) [
            | none ↦ (t, [])
            | some idx ↦ apply_update update idx (
                link_leg request_id is_buy_side idx (record t {
                  orders = set t.orders idx (early_order num now request_id is_buy_side);
                }))
          ]
        ]
      ]

  pub is_overdue : ℕ → ℕ → TrackedOrder D → Bool
  is_overdue now ws_timeout_ms order =
      order.active
      && not order.timeout_escalated
      && not (is_done order)
      && ltb ws_timeout_ms (now - order.created_at_ms)

  -- the loop of `check_timeouts` over the slots, for at most `room` more escalations
  pub escalate : ℕ → ℕ → ℕ → List (TrackedOrder D) → List (TrackedOrder D) × List (TrackedOrder D)
  escalate now ws_timeout_ms zero orders = (orders, [])
  escalate now ws_timeout_ms (suc room) [] = ([], [])
  escalate now ws_timeout_ms (suc room) (order ∷ orders) =
      let (kept, reported) = escalate now ws_timeout_ms (suc room) orders in
      let (kept_less, reported_less) = escalate now ws_timeout_ms room orders in
      let marked = record order { timeout_escalated = true } in
      if is_overdue now ws_timeout_ms order
      then (marked ∷ kept_less, marked ∷ reported_less)
      else (order ∷ kept, reported)

  pub check_timeouts : ℕ → ℕ → OrderTracker D → OrderTracker D × List (TrackedOrder D)
  check_timeouts now ws_timeout_ms t =
      let (orders, escalated) = escalate now ws_timeout_ms 16 t.orders in
      (record t { orders = orders }, escalated)

  pub active_count : OrderTracker D → ℕ
  active_count t = count_if (λ (order : TrackedOrder D). order.active) t.orders

  pub get_order : List ℕ → OrderTracker D → Option (TrackedOrder D)
  get_order id t = order_at t (find_order id t)
