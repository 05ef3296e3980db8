-- ===== src/Executor/Result.antt =====
-- include/arbitrage/executor/types.hpp: requests of two legs, their results, plans of recovery and
-- the counters of the executor. Times of single legs and the texts of messages are left out; an
-- error is its code, as far as the executor tells errors apart.
use kac.Base.{ℕ, suc, Bool, true, false, not, ◌&&◌, ◌||◌, Option, none, some, if◌then◌else◌, ltb, ℤ}
use kac.Executor.Number.{Double}
use kac.Executor.Order.{
  Exchange, OrderStatus, OrderRequest, OrderResult, same_exchange, is_krw_exchange, is_buy,
  ends_badly, ends_filled, partially_filled,
}

pub data RecoveryAction : Type 0 where
  no_action : RecoveryAction
  sell_bought : RecoveryAction
  buy_sold : RecoveryAction
  cancel_both : RecoveryAction
  manual_intervention : RecoveryAction

pub data Error : Type 0 where
  invalid_request : Error
  client_error : (code : ℕ) → Error

pub record DualOrderRequest (D : Type 0) : Type 0 where
  pub buy_order : OrderRequest D
  pub sell_order : OrderRequest D
  pub expected_premium : D
  pub request_id : ℤ

pub record SingleOrderResult (D : Type 0) : Type 0 where
  pub exchange : Exchange
  pub result : Option (OrderResult D)
  pub error : Option Error

pub record DualOrderResult (D : Type 0) : Type 0 where
  pub buy_result : SingleOrderResult D
  pub sell_result : SingleOrderResult D
  pub request_id : ℤ
  pub actual_premium : D
  pub start_time : ℕ
  pub end_time : ℕ

pub record RecoveryPlan (D : Type 0) : Type 0 where
  pub action : RecoveryAction
  pub recovery_order : OrderRequest D
  pub retry_count : ℕ
  pub max_retries : ℕ

unfoldable pub has_value : {A : Type 0} → Option A → Bool
has_value none = false
has_value (some a) = true

pub is_partial : OrderStatus → Bool
is_partial partially_filled = true
is_partial other = false

unfoldable pub status_of : {D : Type 0} → (OrderStatus → Bool) → Option (OrderResult D) → Bool
status_of test none = false
status_of test (some r) = test r.status

unfoldable pub needs_execution : RecoveryAction → Bool
needs_execution no_action = false
needs_execution manual_intervention = false
needs_execution other = true

module _ {D : Type 0} where
  unfoldable pub can_retry : RecoveryPlan D → Bool
  can_retry plan = ltb plan.retry_count plan.max_retries

  unfoldable pub increment_retry : RecoveryPlan D → RecoveryPlan D
  increment_retry plan = record plan { retry_count = suc plan.retry_count }

  unfoldable pub is_success : SingleOrderResult D → Bool
  is_success r = has_value r.result && not (has_value r.error)

  unfoldable pub is_filled : SingleOrderResult D → Bool
  unfolding is_success
  is_filled r = is_success r && status_of ends_filled r.result

  unfoldable pub is_failed : SingleOrderResult D → Bool
  is_failed r = has_value r.error || has_value r.result && status_of ends_badly r.result

  unfoldable pub both_success : DualOrderResult D → Bool
  both_success r = is_success r.buy_result && is_success r.sell_result

  unfoldable pub both_filled : DualOrderResult D → Bool
  both_filled r = is_filled r.buy_result && is_filled r.sell_result

  pub both_failed : DualOrderResult D → Bool
  both_failed r = is_failed r.buy_result && is_failed r.sell_result

  unfoldable pub partial_fill : DualOrderResult D → Bool
  partial_fill r =
      is_success r.buy_result && is_failed r.sell_result
      || is_failed r.buy_result && is_success r.sell_result

  unfoldable pub any_success : DualOrderResult D → Bool
  any_success r = is_success r.buy_result || is_success r.sell_result

module _ {D : Type 0} (num : Double D) where
  pub is_valid : DualOrderRequest D → Bool
  is_valid request =
      if same_exchange request.buy_order.exchange request.sell_order.exchange
      then false
      else if not (is_buy request.buy_order.side)
      then false
      else if is_buy request.sell_order.side
      then false
      else if num.le request.buy_order.quantity num.zero_qty
          || num.le request.sell_order.quantity num.zero_qty
      then false
      else true

  pub is_partially_filled : SingleOrderResult D → Bool
  is_partially_filled r =
      is_success r
      && status_of is_partial r.result
      && elim r.result [ none ↦ false | some o ↦ num.lt num.zero_qty o.filled_qty ]

  pub filled_qty : SingleOrderResult D → D
  filled_qty r = elim r.result [ none ↦ num.zero_qty | some o ↦ o.filled_qty ]

  pub avg_price : SingleOrderResult D → D
  avg_price r = elim r.result [ none ↦ num.zero_qty | some o ↦ o.avg_price ]

  -- a price of the exchange, in won
  pub to_krw : D → Exchange → D → D
  to_krw fx_rate ex amount = if is_krw_exchange ex then amount else num.mul amount fx_rate

  pub total_buy_cost : D → DualOrderResult D → D
  total_buy_cost fx_rate r =
      to_krw fx_rate r.buy_result.exchange
        (num.mul (filled_qty r.buy_result) (avg_price r.buy_result))

  pub total_sell_revenue : D → DualOrderResult D → D
  total_sell_revenue fx_rate r =
      to_krw fx_rate r.sell_result.exchange
        (num.mul (filled_qty r.sell_result) (avg_price r.sell_result))

  pub gross_profit : D → DualOrderResult D → D
  gross_profit fx_rate r = num.sub (total_sell_revenue fx_rate r) (total_buy_cost fx_rate r)

  pub calculate_actual_premium : D → DualOrderResult D → DualOrderResult D
  calculate_actual_premium fx_rate r =
      let buy_krw = to_krw fx_rate r.buy_result.exchange (avg_price r.buy_result) in
      let sell_krw = to_krw fx_rate r.sell_result.exchange (avg_price r.sell_result) in
      if num.lt num.zero_qty (avg_price r.buy_result)
        && num.lt num.zero_qty (avg_price r.sell_result)
      then if is_krw_exchange r.sell_result.exchange
        then record r {
          actual_premium = num.mul (num.div (num.sub sell_krw buy_krw) buy_krw) num.hundred;
        }
        else record r {
          actual_premium = num.mul (num.div (num.sub buy_krw sell_krw) sell_krw) num.hundred;
        }
      else r
