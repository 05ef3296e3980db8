-- ===== src/Executor/Recovery.antt =====
-- src/executor/recovery.cpp and include/arbitrage/executor/recovery.hpp: `RecoveryManager`. The
-- clients of the exchanges are a parameter: what `place_order` answers may depend on all the orders
-- sent before. The state carries these orders, newest first. `int` counters of retries are not
-- negative here.
pub mod Plan
pub mod Retry
use kac.Base.{
  ℕ, zero, suc, ◌-◌, Bool, true, false, not, Option, none, some, List, [], ◌∷◌, if◌then◌else◌, ◌⊎◌,
  inl, inr,
}
use kac.Word.{add64}
use kac.Executor.Number.{Double}
use kac.Executor.Order.{
  Exchange, OrderSide, buy, sell, upbit, limit, market, OrderRequest, OrderResult, set_symbol,
}
use kac.Executor.Result.{
  RecoveryAction, no_action, sell_bought, buy_sold, Error, invalid_request, DualOrderRequest,
  SingleOrderResult, DualOrderResult, RecoveryPlan, filled_qty, needs_execution, can_retry,
  increment_retry, is_success,
}

pub record Stats : Type 0 where
  pub total_plans : ℕ
  pub sell_bought_plans : ℕ
  pub buy_sold_plans : ℕ
  pub manual_plans : ℕ
  pub executions : ℕ
  pub successes : ℕ
  pub failures : ℕ
  pub retries : ℕ

-- The settings of a `RecoveryManager`.
pub record Settings : Type 0 where
  pub max_retries : ℕ
  pub dry_run : Bool

pub record RecoveryResult (D : Type 0) : Type 0 where
  pub plan : RecoveryPlan D
  pub result : Option (SingleOrderResult D)
  pub success : Bool

-- What `place_order` of each configured exchange answers, given the orders sent before.
abbrev pub Clients : Type 0 → Type 0
Clients D = Exchange → Option (List (OrderRequest D) → OrderRequest D → OrderResult D ⊎ Error)

module _ {D : Type 0} where
  pub placed : Exchange → OrderResult D ⊎ Error → SingleOrderResult D
  placed ex (inl answer) = record { exchange = ex; result = some answer; error = none }
  placed ex (inr problem) = record { exchange = ex; result = none; error = some problem }

  -- `execute_order`, and `execute_single` without its delay
  pub execute_order :
      Clients D
      → OrderRequest D
      → List (OrderRequest D)
      → SingleOrderResult D × List (OrderRequest D)
  execute_order clients order sent = elim (clients order.exchange) [
    | none ↦
        (record { exchange = order.exchange; result = none; error = some invalid_request }, sent)
    | some place_order ↦ (placed order.exchange (place_order sent order), order ∷ sent)
  ]

  -- the quantity that the fills of the two legs differ by
  pub imbalance_of : Double D → DualOrderResult D → D
  imbalance_of num r = num.sub (filled_qty num r.buy_result) (filled_qty num r.sell_result)

  -- The market order of a plan. Its `client_order_id` is never set: it is what the buffer held.
  pub market_order : Double D → List ℕ → Exchange → OrderSide → List ℕ → D → OrderRequest D
  market_order num leftover ex side symbol quantity = set_symbol symbol (record {
    exchange = ex;
    side = side;
    order_type = market;
    symbol = [];
    quantity = quantity;
    price = num.zero_qty;
    client_order_id = leftover;
  })

  pub create_sell_bought_plan :
      Double D → List ℕ → Settings → DualOrderRequest D → D → RecoveryPlan D
  create_sell_bought_plan num leftover settings request quantity = record {
    action = sell_bought;
    recovery_order =
        market_order num leftover request.buy_order.exchange sell request.buy_order.symbol quantity;
    retry_count = 0;
    max_retries = settings.max_retries;
  }

  pub create_buy_sold_plan : Double D → List ℕ → Settings → DualOrderRequest D → D → RecoveryPlan D
  create_buy_sold_plan num leftover settings request quantity = record {
    action = buy_sold;
    recovery_order =
        market_order num leftover request.sell_order.exchange buy request.sell_order.symbol
          quantity;
    retry_count = 0;
    max_retries = settings.max_retries;
  }

  -- `RecoveryPlan{RecoveryAction::None, {}, …}`
  pub no_plan : Double D → RecoveryPlan D
  no_plan num = record {
    action = no_action;
    recovery_order = record {
      exchange = upbit;
      side = buy;
      order_type = limit;
      symbol = [];
      quantity = num.zero_qty;
      price = num.zero_qty;
      client_order_id = [];
    };
    retry_count = 0;
    max_retries = 3;
  }

  pub create_plan :
      Double D
      → List ℕ
      → Settings
      → DualOrderRequest D
      → DualOrderResult D
      → Stats
      → RecoveryPlan D × Stats
  create_plan num leftover settings request r stats =
      let counted = record stats { total_plans = add64 stats.total_plans 1 } in
      let imbalance = imbalance_of num r in
      if num.le (num.abs imbalance) num.dust_eps
      then (no_plan num, counted)
      else if num.lt num.zero_qty imbalance
      then (
        create_sell_bought_plan num leftover settings request imbalance,
        record counted { sell_bought_plans = add64 stats.sell_bought_plans 1 },
      )
      else (
        create_buy_sold_plan num leftover settings request (num.neg imbalance),
        record counted { buy_sold_plans = add64 stats.buy_sold_plans 1 },
      )

  -- The loop of `execute_with_retry`, for at most `fuel` rounds.
  pub retry_loop :
      Clients D
      → Settings
      → ℕ
      → RecoveryPlan D
      → Option (SingleOrderResult D)
      → Stats
      → List (OrderRequest D)
      → Option (RecoveryResult D × Stats × List (OrderRequest D))
  retry_loop clients settings zero plan last stats sent = none
  retry_loop clients settings (suc fuel) plan last stats sent =
      let (answer, sent_now) = execute_order clients plan.recovery_order sent in
      let rest =
        retry_loop clients settings fuel (increment_retry plan) (some answer)
          (record stats { retries = add64 stats.retries 1 }) sent_now in
      if not (can_retry plan)
      then some (
        record { plan = plan; result = last; success = false },
        record stats { failures = add64 stats.failures 1 },
        sent,
      )
      else if settings.dry_run
      then some (
        record { plan = plan; result = last; success = true },
        record stats { successes = add64 stats.successes 1 },
        sent,
      )
      else if is_success answer
      then some (
        record { plan = plan; result = some answer; success = true },
        record stats { successes = add64 stats.successes 1 },
        sent_now,
      )
      else rest

  -- one round more than there are retries
  pub execute_with_retry :
      Clients D
      → Settings
      → RecoveryPlan D
      → Stats
      → List (OrderRequest D)
      → Option (RecoveryResult D × Stats × List (OrderRequest D))
  execute_with_retry clients settings plan stats sent =
      if not (needs_execution plan.action)
      then some (record { plan = plan; result = none; success = false }, stats, sent)
      else retry_loop clients settings (suc (plan.max_retries - plan.retry_count)) plan none
          (record stats { executions = add64 stats.executions 1 }) sent
