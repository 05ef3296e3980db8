-- ===== src/Executor/Tracker/Cleanup.antt =====
-- src/executor/order_tracker.cpp: `cleanup_stale`, which gives back the slots of completed pairs and
-- of old orders.
pub mod Fresh
use kac.Base.{
  ℕ, zero, suc, ◌-◌, Bool, true, false, not, ◌&&◌, ◌||◌, Option, none, some, List, ◌==◌, ltb,
  if◌then◌else◌, get_elem?, set, length, find_index,
}
use kac.Executor.Number.{Double}
use kac.Executor.Tracker.{
  TrackedOrder, DualOrderTrack, OrderTracker, reset_dual, reset_order, order_at,
}

pub same_slot : Option ℕ → ℕ → Bool
same_slot none i = false
same_slot (some j) i = j == i

-- an active pair with the slot among its legs
pub names_slot : ℕ → DualOrderTrack → Bool
names_slot i dual = dual.active && (same_slot dual.buy_idx i || same_slot dual.sell_idx i)

module _ {D : Type 0} where
  -- `release_dual` of `cleanup_stale`: both legs and the pair
  pub release_leg : Double D → Option ℕ → List (TrackedOrder D) → List (TrackedOrder D)
  release_leg num none orders = orders
  release_leg num (some i) orders = set orders i (reset_order num)

  pub release_dual : Double D → ℕ → DualOrderTrack → OrderTracker D → OrderTracker D
  release_dual num d dual t = record t {
    orders = release_leg num dual.sell_idx (release_leg num dual.buy_idx t.orders);
    duals = set t.duals d reset_dual;
  }

  pub is_old : ℕ → ℕ → TrackedOrder D → Bool
  is_old now max_age_ms order = order.active && ltb max_age_ms (now - order.created_at_ms)

  -- the closure `is_stale` of `cleanup_stale`
  pub is_stale : ℕ → ℕ → Option (TrackedOrder D) → Bool
  is_stale now max_age_ms none = false
  is_stale now max_age_ms (some order) = is_old now max_age_ms order

  pub clean_dual : Double D → ℕ → ℕ → ℕ → OrderTracker D → OrderTracker D
  clean_dual num now max_age_ms d t = elim (get_elem? t.duals d) [
    | none ↦ t
    | some dual ↦
        if not dual.active
        then t
        else if dual.completed
            || is_stale now max_age_ms (order_at t dual.buy_idx)
            || is_stale now max_age_ms (order_at t dual.sell_idx)
        then release_dual num d dual t
        else t
  ]

  -- the first loop of `cleanup_stale`, over the `n` pairs from `d` on
  pub clean_duals : Double D → ℕ → ℕ → ℕ → ℕ → OrderTracker D → OrderTracker D
  clean_duals num now max_age_ms zero d t = t
  clean_duals num now max_age_ms (suc n) d t =
      clean_duals num now max_age_ms n (suc d) (clean_dual num now max_age_ms d t)

  -- the first active pair that names the slot is released
  pub release_holder : Double D → ℕ → OrderTracker D → OrderTracker D
  release_holder num i t = elim (find_index (names_slot i) t.duals) [
    | none ↦ t
    | some d ↦ elim (get_elem? t.duals d) [ none ↦ t | some dual ↦ release_dual num d dual t ]
  ]

  pub clean_order : Double D → ℕ → ℕ → ℕ → OrderTracker D → OrderTracker D
  clean_order num now max_age_ms i t = elim (get_elem? t.orders i) [
    | none ↦ t
    | some order ↦
        if is_old now max_age_ms order
        then (let released = release_holder num i t in
            record released { orders = set released.orders i (reset_order num) })
        else t
  ]

  -- the second loop of `cleanup_stale`, over the `n` slots from `i` on
  pub clean_orders : Double D → ℕ → ℕ → ℕ → ℕ → OrderTracker D → OrderTracker D
  clean_orders num now max_age_ms zero i t = t
  clean_orders num now max_age_ms (suc n) i t =
      clean_orders num now max_age_ms n (suc i) (clean_order num now max_age_ms i t)

  pub cleanup_stale : Double D → ℕ → ℕ → OrderTracker D → OrderTracker D
  cleanup_stale num now max_age_ms t =
      clean_orders num now max_age_ms (length t.orders) 0
        (clean_duals num now max_age_ms (length t.duals) 0 t)
