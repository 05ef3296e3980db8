-- ===== src/Executor/Tests.antt =====
-- Tests of the executor, and its theorems at whole numbers in the place of `double`.
use kac.Base.{
  ◌≡◌, refl, ◌⊎◌, inl, inr, true, false, Option, none, some, List, [], ◌∷◌, arith, ◌≤◌, length, ℤ,
  pos,
}
use kac.Executor.Order.{
  upbit, binance, mexc, buy, sell, limit, OrderRequest, OrderResult, filled, set_client_order_id,
  partially_filled, OrderStatus,
}
use kac.Executor.Result.{
  DualOrderRequest, DualOrderResult, RecoveryPlan, client_error, sell_bought, needs_execution,
  any_success, has_value,
}
use kac.Executor.Text.{is_empty_text}
use kac.Executor.Stats
use kac.Executor.Stats.{ExecutorStats, record_result}
use kac.Executor.Stats.Laws.{Recorded, record_result-Recorded}
use kac.Executor.Recovery.{
  Stats, Settings, RecoveryResult, Clients, imbalance_of, create_plan, execute_with_retry,
}
use kac.Executor.Recovery.Retry.{IsOutcome, execute_with_retry-IsOutcome}
use kac.Executor.Recovery.Plan.{Closes, create_plan-Closes}
use kac.Executor.Dual.{
  Environment, Executor, execute_sync, has_exchange, identify, set_request_id_auto, name_order,
  is_zero_id,
}
use kac.Executor.Dual.Safety.{execute_sync-bounded, execute_sync-refused}
use kac.Whole.{whole, whole-IsDouble}

abbrev fill : OrderStatus → ℤ → OrderResult ℤ
fill status quantity = record {
  order_id = 49 ∷ [];
  status = status;
  filled_qty = quantity;
  avg_price = pos 100;
  commission = pos 0;
  timestamp_us = 0;
}

-- Upbit refuses its first order and fills the next ones; Binance fills every order; the others
-- have no client.
abbrev two_clients : Clients ℤ
two_clients upbit =
    some
      (λ sent order. elim sent [ [] ↦ inr (client_error 5) | _ ↦ inl (fill filled order.quantity) ])
two_clients binance = some (λ sent order. inl (fill partially_filled (pos 3)))
two_clients other = none

abbrev settings3 : Settings
settings3 = record { max_retries = 3; dry_run = false }

abbrev stats0 : Stats
stats0 = record {
  total_plans = 0;
  sell_bought_plans = 0;
  buy_sold_plans = 0;
  manual_plans = 0;
  executions = 0;
  successes = 0;
  failures = 0;
  retries = 0;
}

abbrev request5 : DualOrderRequest ℤ
request5 = record {
  buy_order = record {
    exchange = binance;
    side = buy;
    order_type = limit;
    symbol = 88 ∷ [];
    quantity = pos 5;
    price = pos 100;
    client_order_id = [];
  };
  sell_order = record {
    exchange = upbit;
    side = sell;
    order_type = limit;
    symbol = 88 ∷ [];
    quantity = pos 5;
    price = pos 101;
    client_order_id = [];
  };
  expected_premium = pos 1;
  request_id = pos 12;
}

-- bought 3 and sold 5
abbrev oversold : DualOrderResult ℤ
oversold = record {
  buy_result = record {
    exchange = binance;
    result = some (fill partially_filled (pos 3));
    error = none;
  };
  sell_result = record { exchange = upbit; result = some (fill filled (pos 5)); error = none };
  request_id = pos 12;
  actual_premium = pos 0;
  start_time = 10;
  end_time = 40;
}

abbrev plan2 : RecoveryPlan ℤ
plan2 = record {
  action = sell_bought;
  recovery_order = request5.sell_order;
  retry_count = 0;
  max_retries = 2;
}

abbrev environment : Environment ℤ
environment = record {
  clients = two_clients;
  recovery_clients = two_clients;
  leftover = [];
  unset = mexc;
  now = pos 9;
  start_time = 10;
  end_time = 40;
  buy_first = true;
}

abbrev executor : Executor ℤ
executor = record {
  auto_recovery = true;
  recovery = true;
  settings = settings3;
  stats = Stats.reset;
  recovery_stats = stats0;
  sent = [];
}

execute_with_retry-IsOutcome_example :
    (out : RecoveryResult ℤ × Stats × List (OrderRequest ℤ)) × (execute_with_retry two_clients
        settings3 plan2 stats0 []
      ≡ some out)
    × IsOutcome settings3 plan2 stats0 [] out
unfolding needs_execution
execute_with_retry-IsOutcome_example =
    execute_with_retry-IsOutcome two_clients settings3 plan2 stats0 [] refl (omega arith)

create_plan-Closes_example :
    let plan = (create_plan whole [] settings3 request5 oversold stats0).0 in
    ((needs_execution plan.action ≡ false)
      × (whole.le (whole.abs (imbalance_of whole oversold)) whole.dust_eps ≡ true))
    ⊎ ((needs_execution plan.action ≡ true)
        × Closes whole request5 (imbalance_of whole oversold) plan)
create_plan-Closes_example =
    create_plan-Closes whole whole-IsDouble [] settings3 request5 oversold stats0 refl

record_result-Recorded_example : Recorded 30 Stats.reset (record_result oversold Stats.reset)
record_result-Recorded_example = record_result-Recorded oversold Stats.reset

execute_sync-bounded_example :
    (out : DualOrderResult ℤ × Executor ℤ × Option (RecoveryResult ℤ)) × (execute_sync whole
        environment request5 executor
      ≡ some out)
    × (length out.1.sent ≤ 5)
execute_sync-bounded_example = execute_sync-bounded whole environment request5 executor

-- Mexc has no client.
execute_sync-refused_example :
    let moved = record request5 { buy_order = record request5.buy_order { exchange = mexc } } in
    (r : DualOrderResult ℤ) × (execute_sync whole environment moved executor
      ≡ some (r, executor, none))
    × (any_success r ≡ false)
unfolding has_exchange identify set_request_id_auto name_order is_zero_id is_empty_text
    set_client_order_id has_value
execute_sync-refused_example =
    execute_sync-refused whole environment
      (record request5 { buy_order = record request5.buy_order { exchange = mexc } }) executor
      (inr (inl refl))
