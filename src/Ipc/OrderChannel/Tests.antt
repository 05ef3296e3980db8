-- ===== src/Ipc/OrderChannel/Tests.antt =====
-- The theorems on `OrderChannel` with numbers for requests and results and two slots, and on `to_shm`
-- with one leg filled.
use kac.Base.{ℕ, ◌-◌, ◌^◌, ◌&&◌, not, ◌≡◌, refl, none, some, List, [], ◌∷◌, arith, ℤ, pos}
use kac.Whole.{whole}
use kac.Executor.Order.{upbit, binance, filled, ends_badly}
use kac.Executor.Result.{
  SingleOrderResult, DualOrderResult, Error, invalid_request, client_error, is_failed, is_success,
  has_value, status_of, any_success,
}
use kac.Executor.Result
use kac.Ipc.OrderChannel.{
  SharedMemory, OrderChannel, create_engine_side, create_order_manager_side, Act, run, to_shm,
  both_success, both_filled, partial_fill,
}
use kac.Ipc.OrderChannel.Linked.{expected}
use kac.Ipc.OrderChannel.OneWay.{create-run}
use kac.Ipc.OrderChannel.Flags.{to_shm-flags, partial_fill-to_shm}

abbrev no_memory : SharedMemory ℕ ℕ
no_memory = record { orders = []; order_results = [] }

create-run_example :
    let (engine, n) = create_engine_side 0 0 8 8 41 (2 ^ 1) no_memory in
    (manager : OrderChannel) × (last : SharedMemory ℕ ℕ) × (create_order_manager_side 0 0 8 8 42
        (2 ^ 1)
        n
      ≡ some (manager, last))
    × ((acts : List (Act ℕ ℕ)) → run engine manager acts last ≡ expected (2 ^ 1 - 1) [] [] acts)
create-run_example = create-run 0 0 8 8 1 (omega arith) 41 42 no_memory

abbrev filled_leg : SingleOrderResult ℤ
filled_leg = record {
  exchange = upbit;
  result = some (record {
    order_id = 7 ∷ [];
    status = filled;
    filled_qty = pos 2;
    avg_price = pos 50;
    commission = pos 0;
    timestamp_us = 0;
  });
  error = none;
}

abbrev failed_leg : SingleOrderResult ℤ
failed_leg = record { exchange = binance; result = none; error = some (client_error 100) }

abbrev one_leg : DualOrderResult ℤ
one_leg = record {
  buy_result = filled_leg;
  sell_result = failed_leg;
  request_id = pos 9;
  actual_premium = pos 0;
  start_time = 0;
  end_time = 4;
}

abbrev numbered : Error → ℕ
numbered invalid_request = 201
numbered (client_error code) = code

to_shm-flags_example :
    let shm = to_shm whole numbered (pos 1) one_leg in
    (both_success shm ≡ Result.both_success one_leg)
    × (both_filled shm ≡ Result.both_filled one_leg)
    × (partial_fill shm ≡ (any_success one_leg && not (Result.both_success one_leg)))
to_shm-flags_example = to_shm-flags whole numbered (pos 1) one_leg

one_leg_partial : partial_fill (to_shm whole numbered (pos 1) one_leg) ≡ Result.partial_fill one_leg
unfolding is_failed is_success has_value status_of ends_badly
one_leg_partial = partial_fill-to_shm whole numbered (pos 1) one_leg refl refl
