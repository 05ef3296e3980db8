-- ===== src/Executor/Dual.antt =====
-- src/executor/dual_order.cpp: `DualOrderExecutor`. The two legs run in parallel on different
-- exchanges; either may be sent first. Waiting for a delay is left out. `none` stands for a
-- recovery that does not return.

pub mod Safety
use kac.Base.{
  ◌>>=◌, ℕ, zero, suc, Bool, true, false, not, ◌&&◌, ◌||◌, Option, none, some, List, [], ◌∷◌,
  if◌then◌else◌, ℤ, pos,
}
use kac.Executor.Number.{Double}
use kac.Executor.Text.{is_empty_text}
use kac.Executor.Order.{Exchange, OrderRequest, set_client_order_id}
use kac.Executor.ClientId.{client_id}
use kac.Executor.Result.{
  RecoveryAction, no_action, manual_intervention, Error, invalid_request, DualOrderRequest,
  SingleOrderResult, DualOrderResult, RecoveryPlan, has_value, is_valid,
}
use kac.Executor.Stats.{ExecutorStats, record_result, record_recovery}
use kac.Executor.Recovery.{
  Stats, Settings, RecoveryResult, Clients, placed, create_plan, execute_with_retry,
}

-- What surrounds the executor: its clients and those of its `RecoveryManager`, what an unset buffer and an unset exchange hold, the
-- readings of the clock, and which leg is sent first.
pub record Environment (D : Type 0) : Type 0 where
  pub clients : Clients D
  pub recovery_clients : Clients D
  pub leftover : List ℕ
  pub unset : Exchange
  pub now : ℤ
  pub start_time : ℕ
  pub end_time : ℕ
  pub buy_first : Bool

-- The executor: `recovery` tells whether it has a `RecoveryManager`.
pub record Executor (D : Type 0) : Type 0 where
  pub auto_recovery : Bool
  pub recovery : Bool
  pub settings : Settings
  pub stats : ExecutorStats
  pub recovery_stats : Stats
  pub sent : List (OrderRequest D)

unfoldable pub is_zero_id : ℤ → Bool
is_zero_id (pos zero) = true
is_zero_id other = false

module _ {D : Type 0} where
  unfoldable pub set_request_id_auto : ℤ → DualOrderRequest D → DualOrderRequest D
  set_request_id_auto now request =
      if is_zero_id request.request_id then record request { request_id = now } else request

  unfoldable pub name_order : ℤ → Bool → OrderRequest D → OrderRequest D
  name_order request_id is_buy_side order =
      if is_empty_text order.client_order_id
      then set_client_order_id (client_id request_id is_buy_side) order
      else order

  -- the local copy of `execute_sync`: an id for the request, and for the legs that have none
  unfoldable pub identify : ℤ → DualOrderRequest D → DualOrderRequest D
  identify now request =
      let named = set_request_id_auto now request in
      record named {
        buy_order = name_order named.request_id true named.buy_order;
        sell_order = name_order named.request_id false named.sell_order;
      }

  unfoldable pub has_exchange : Clients D → Exchange → Bool
  has_exchange clients ex = has_value (clients ex)

  pub blank_leg : Environment D → Option Error → SingleOrderResult D
  blank_leg env error = record { exchange = env.unset; result = none; error = error }

  pub execute_single :
      Clients D
      → Exchange
      → OrderRequest D
      → List (OrderRequest D)
      → SingleOrderResult D × List (OrderRequest D)
  execute_single clients ex order sent = elim (clients ex) [
    | none ↦ (record { exchange = ex; result = none; error = some invalid_request }, sent)
    | some place_order ↦ (placed ex (place_order sent order), order ∷ sent)
  ]

  -- the two asynchronous legs, in the order in which they reach their exchanges
  pub execute_legs :
      Environment D
      → DualOrderRequest D
      → List (OrderRequest D)
      → SingleOrderResult D × SingleOrderResult D × List (OrderRequest D)
  execute_legs env request sent =
      let (b1, sent1) =
        execute_single env.clients request.buy_order.exchange request.buy_order sent in
      let (s2, sent2) =
        execute_single env.clients request.sell_order.exchange request.sell_order sent1 in
      let (s1, sent3) =
        execute_single env.clients request.sell_order.exchange request.sell_order sent in
      let (b2, sent4) =
        execute_single env.clients request.buy_order.exchange request.buy_order sent3 in
      if env.buy_first then (b1, s2, sent2) else (b2, s1, sent4)

  pub dual_result :
      Double D
      → Environment D
      → DualOrderRequest D
      → SingleOrderResult D
      → SingleOrderResult D
      → DualOrderResult D
  dual_result num env request buy_result sell_result = record {
    buy_result = buy_result;
    sell_result = sell_result;
    request_id = request.request_id;
    actual_premium = num.zero_qty;
    start_time = env.start_time;
    end_time = env.end_time;
  }

  -- `none` when both exchanges have a client, and otherwise the result of the refusal
  pub refusal : Double D → Environment D → DualOrderRequest D → Option (DualOrderResult D)
  refusal num env request =
      let problem =
        λ (missing : Bool). blank_leg env (if missing then some invalid_request else none) in
      let buy_missing = not (has_exchange env.clients request.buy_order.exchange) in
      let sell_missing = not (has_exchange env.clients request.sell_order.exchange) in
      if not (is_valid num request)
      then some (dual_result num env request (problem true) (problem true))
      else if buy_missing || sell_missing
      then some (dual_result num env request (problem buy_missing) (problem sell_missing))
      else none

  pub with_recovery :
      Executor D
      → Option (RecoveryResult D × Stats × List (OrderRequest D))
      → Option (Executor D × Option (RecoveryResult D))
  with_recovery ex none = none
  with_recovery ex (some (done, recovery_stats, sent)) = some (
    record ex {
      stats = record_recovery done.success ex.stats;
      recovery_stats = recovery_stats;
      sent = sent;
    },
    some done,
  )

  -- what follows a plan: `none` in the place of the recovery result means that no callback is made
  pub run_plan :
      Environment D → RecoveryPlan D → Executor D → Option (Executor D × Option (RecoveryResult D))
  run_plan env plan ex = elim plan.action [
    | no_action ↦ some (ex, none)
    | manual_intervention ↦ some (ex, some (record { plan = plan; result = none; success = false }))
    | _ ↦
        with_recovery ex
          (execute_with_retry env.recovery_clients ex.settings plan ex.recovery_stats ex.sent)
  ]

  pub handle_recovery :
      Double D
      → Environment D
      → DualOrderRequest D
      → DualOrderResult D
      → Executor D
      → Option (Executor D × Option (RecoveryResult D))
  handle_recovery num env request r ex =
      let (plan, recovery_stats) =
        create_plan num env.leftover ex.settings request r ex.recovery_stats in
      run_plan env plan (record ex { recovery_stats = recovery_stats })

  pub with_result :
      DualOrderResult D
      → Option (Executor D × Option (RecoveryResult D))
      → Option (DualOrderResult D × Executor D × Option (RecoveryResult D))
  with_result r none = none
  with_result r (some (after, reported)) = some (r, after, reported)

  -- both legs are sent, counted, and the difference of their fills is recovered
  pub send_legs :
      Double D
      → Environment D
      → DualOrderRequest D
      → Executor D
      → Option (DualOrderResult D × Executor D × Option (RecoveryResult D))
  send_legs num env request ex =
      let (buy_result, sell_result, sent) = execute_legs env request ex.sent in
      let r = dual_result num env request buy_result sell_result in
      let counted = record ex { stats = record_result r ex.stats; sent = sent } in
      if ex.auto_recovery && ex.recovery
      then with_result r (handle_recovery num env request r counted)
      else some (r, counted, none)

  pub execute_sync :
      Double D
      → Environment D
      → DualOrderRequest D
      → Executor D
      → Option (DualOrderResult D × Executor D × Option (RecoveryResult D))
  execute_sync num env original ex =
      let request = identify env.now original in
      elim (refusal num env request) [
        | some r ↦ some (r, ex, none)
        | none ↦ send_legs num env request ex
      ]
