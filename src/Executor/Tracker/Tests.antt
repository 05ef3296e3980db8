-- ===== src/Executor/Tracker/Tests.antt =====
-- Tests of `OrderTracker`, and its theorems at a tracker with two order slots and one pair.
use kac.Base.{ℕ, ◌≡◌, refl, inr, ◌+◌, true, false, none, some, List, [], ◌∷◌, arith, ℤ, pos, length}
use kac.Executor.Text.{same_text, is_empty_text}
use kac.Executor.ClientId.{
  parse_client_order_id, strip_prefix, split_mark, keep_before, is_digit, read_digits,
  read_magnitude, from_chars, positive, side_of, parse_parts,
}
use kac.Executor.Order.{
  OrderUpdate, filled, has_client_order_id, is_terminal, set_order_id, update_client_order_id,
}
use kac.Whole.{whole}
use kac.Executor.Tracker.{
  TrackedOrder, OrderTracker, reset_dual, reset_order, blank_update, registered_order,
  on_order_update, get_order, check_timeouts, is_overdue, alloc_order, escalate, is_done,
  complete_request, check_completion, complete_pair, apply_update, link_leg, set_leg,
  find_or_alloc_dual, tracks_id, same_id, find_order, holds_id, order_at, early_order,
  name_exchange_order, register_order,
}
use kac.Executor.Tracker.Once.{
  Call, register, update, timeouts, calls, call, completed_pairs, calls-counts,
}
use kac.Executor.Tracker.Lookup.{on_order_update-get_order}
use kac.Executor.Tracker.Cleanup.{cleanup_stale}
use kac.Executor.Tracker.Cleanup.Fresh.{old_at, cleanup_stale-young}

abbrev empty_tracker : OrderTracker ℤ
empty_tracker = record {
  orders = reset_order whole ∷ reset_order whole ∷ [];
  duals = reset_dual ∷ [];
}

-- "arb_7_buy" and "arb_7_sell"
abbrev buy_id : List ℕ
buy_id = 97 ∷ 114 ∷ 98 ∷ 95 ∷ 55 ∷ 95 ∷ 98 ∷ 117 ∷ 121 ∷ []

abbrev sell_id : List ℕ
sell_id = 97 ∷ 114 ∷ 98 ∷ 95 ∷ 55 ∷ 95 ∷ 115 ∷ 101 ∷ 108 ∷ 108 ∷ []

abbrev fill_of : List ℕ → OrderUpdate ℤ
fill_of id = record (blank_update whole) { client_order_id = id; status = filled }

-- The sale is filled before it is registered.
abbrev story : List (Call ℤ)
story =
    register 1 buy_id none
    ∷ update 2 (fill_of sell_id)
    ∷ timeouts 9000 5000
    ∷ register 9001 sell_id none
    ∷ update 9002 (fill_of buy_id)
    ∷ update 9003 (fill_of buy_id)
    ∷ []

-- one order, of time 1
abbrev one_order : OrderTracker ℤ
one_order = record {
  orders = registered_order whole 1 (pos 7) true buy_id none ∷ reset_order whole ∷ [];
  duals = reset_dual ∷ [];
}

calls-counts_example :
    let (after, reported) = calls whole story empty_tracker in
    completed_pairs after ≡ completed_pairs empty_tracker + length reported
calls-counts_example = calls-counts whole story empty_tracker

-- The update comes before the registration.
on_order_update-get_order_example :
    (order : TrackedOrder ℤ) × (get_order sell_id
        (on_order_update whole 2 (fill_of sell_id) empty_tracker).0
      ≡ some order)
    × (order.last_update ≡ fill_of sell_id)
    × (order.ws_received ≡ true)
unfolding has_client_order_id is_empty_text parse_client_order_id strip_prefix split_mark
    keep_before parse_parts from_chars positive read_magnitude read_digits is_digit side_of
    same_text alloc_order reset_order
on_order_update-get_order_example =
    on_order_update-get_order whole 2 (fill_of sell_id) empty_tracker refl
      (inr ((pos 7, false), 0, refl, refl))

cleanup_stale-young_example :
    old_at whole 400000 300000 (cleanup_stale whole 400000 300000 one_order).orders 0 ≡ false
cleanup_stale-young_example = cleanup_stale-young whole 400000 300000 one_order 0 (omega arith)

-- The last fill comes twice and the callback is made once.
story_completes_once : length (calls whole story empty_tracker).1 ≡ 1
unfolding calls call register_order on_order_update check_timeouts escalate is_overdue is_done
    complete_request check_completion complete_pair apply_update link_leg set_leg find_or_alloc_dual
    tracks_id same_id alloc_order find_order holds_id order_at registered_order early_order
    name_exchange_order update_client_order_id set_order_id is_terminal has_client_order_id
    is_empty_text parse_client_order_id strip_prefix split_mark keep_before parse_parts from_chars
    positive read_magnitude read_digits is_digit side_of same_text reset_order reset_dual
    blank_update
story_completes_once = refl
