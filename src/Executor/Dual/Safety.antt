-- ===== src/Executor/Dual/Safety.antt =====
-- `execute_sync` returns, sends a bounded number of orders, and sends none for a request that it
-- refuses.
use kac.Base.{
  ℕ, ◌+◌, ◌≤◌, ◌≡◌, ◌⊎◌, inl, inr, refl, ap, ◌∙◌, true, false, not, ◌&&◌, Option, none, some, List,
  arith, Bool-cases, Option-cases, length, if◌then◌else◌,
}
use kac.Executor.Number.{Double}
use kac.Executor.Order.{Exchange, OrderRequest}
use kac.Executor.Result.{
  DualOrderRequest, DualOrderResult, RecoveryPlan, needs_execution, is_valid, any_success,
  is_success, has_value, invalid_request,
}
use kac.Executor.Stats.{record_result, record_recovery}
use kac.Executor.Recovery.{RecoveryResult, create_plan, execute_with_retry}
use kac.Executor.Recovery.Plan.{create_plan-budget}
use kac.Executor.Recovery.Retry.{length-Sends, execute_with_retry-IsOutcome}
use kac.Executor.Dual.{
  Environment, Executor, identify, has_exchange, blank_leg, execute_single, execute_legs,
  dual_result, refusal, with_recovery, with_result, run_plan, handle_recovery, send_legs,
  execute_sync,
}

module _ {D : Type 0} where
  execute_single-length :
      (env : Environment D) (ex : Exchange) (order : OrderRequest D) (sent : List (OrderRequest D))
      → length (execute_single env.clients ex order sent).1 ≤ length sent + 1
  unfolding execute_single
  execute_single-length env ex order sent = elim (Option-cases (env.clients ex)) [
    | inl missing ↦ ground arith
    | inr (place_order, found) ↦ ground arith
  ]

  execute_legs-length :
      (env : Environment D) (request : DualOrderRequest D) (sent : List (OrderRequest D))
      → length (execute_legs env request sent).2 ≤ length sent + 2
  unfolding execute_legs
  execute_legs-length env request sent =
      let buying = execute_single-length env request.buy_order.exchange request.buy_order in
      let selling = execute_single-length env request.sell_order.exchange request.sell_order in
      let after_buy =
        (execute_single env.clients request.buy_order.exchange request.buy_order sent).1 in
      let after_sell =
        (execute_single env.clients request.sell_order.exchange request.sell_order sent).1 in
      elim (Bool-cases env.buy_first) [
        | inl first ↦ ground (arith, buying sent, selling after_buy)
        | inr second ↦ ground (arith, selling sent, buying after_sell)
      ]

  run_plan-needed :
      (env : Environment D) (plan : RecoveryPlan D) (ex : Executor D)
      → needs_execution plan.action ≡ true
      → run_plan env plan ex
        ≡ with_recovery ex
            (execute_with_retry env.recovery_clients ex.settings plan ex.recovery_stats ex.sent)
  unfolding run_plan needs_execution
  run_plan-needed env plan ex needed = ground arith

  run_plan-idle :
      (env : Environment D) (plan : RecoveryPlan D) (ex : Executor D)
      → needs_execution plan.action ≡ false
      → (run_plan env plan ex ≡ some (ex, none))
        ⊎ (run_plan env plan ex
            ≡ some (ex, some (record { plan = plan; result = none; success = false })))
  unfolding run_plan needs_execution
  run_plan-idle env plan ex idle = ground arith

  run_plan-idle_bounded :
      (env : Environment D) (plan : RecoveryPlan D) (ex : Executor D) (n : ℕ)
      → needs_execution plan.action ≡ false
      → (out : Executor D × Option (RecoveryResult D)) × (run_plan env plan ex ≡ some out)
        × (length out.0.sent ≤ length ex.sent + n)
  run_plan-idle_bounded env plan ex n idle = elim (run_plan-idle env plan ex idle) [
    | inl e ↦ ((ex, none), e, omega arith)
    | inr e ↦ ((ex, some (record { plan = plan; result = none; success = false })), e, omega arith)
  ]

  -- `run_plan` returns, within the retries of the plan.
  run_plan-bounded :
      (env : Environment D) (plan : RecoveryPlan D) (ex : Executor D) (n : ℕ)
      → plan.retry_count ≡ 0
      → (needs_execution plan.action ≡ false) ⊎ (plan.max_retries ≡ n)
      → (out : Executor D × Option (RecoveryResult D)) × (run_plan env plan ex ≡ some out)
        × (length out.0.sent ≤ length ex.sent + n)
  unfolding with_recovery
  run_plan-bounded env plan ex n fresh (inl idle) = run_plan-idle_bounded env plan ex n idle
  run_plan-bounded env plan ex n fresh (inr budget) =
      elim (Bool-cases (needs_execution plan.action)) [
        | inr idle ↦ run_plan-idle_bounded env plan ex n idle
        | inl needed ↦
            let ((done, recovery_stats, sent), e, o) =
              execute_with_retry-IsOutcome env.recovery_clients ex.settings plan ex.recovery_stats
                ex.sent needed (omega arith) in
            (
              (
                record ex {
                  stats = record_recovery done.success ex.stats;
                  recovery_stats = recovery_stats;
                  sent = sent;
                },
                some done,
              ),
              run_plan-needed env plan ex needed ∙ ap (with_recovery ex) e,
              omega (arith, length-Sends plan.recovery_order o.orders),
            )
      ]

  module _ (num : Double D) (env : Environment D) where
    send_legs-bounded :
        (request : DualOrderRequest D) (ex : Executor D)
        → (out : DualOrderResult D × Executor D × Option (RecoveryResult D)) × (send_legs num env
              request ex
            ≡ some out)
          × (length out.1.sent ≤ length ex.sent + 2 + ex.settings.max_retries)
    unfolding send_legs handle_recovery with_result
    send_legs-bounded request ex =
        let (buy_result, sell_result, sent) = execute_legs env request ex.sent in
        let r = dual_result num env request buy_result sell_result in
        let counted = record ex { stats = record_result r ex.stats; sent = sent } in
        let (plan, recovery_stats) =
          create_plan num env.leftover ex.settings request r ex.recovery_stats in
        let (fresh, budget) =
          create_plan-budget num env.leftover ex.settings request r ex.recovery_stats in
        elim (Bool-cases (ex.auto_recovery && ex.recovery)) [
          | inr off ↦
              ((r, counted, none), rw off, omega (arith, execute_legs-length env request ex.sent))
          | inl on ↦
              let ((after, reported), e, le) =
                run_plan-bounded env plan (record counted { recovery_stats = recovery_stats })
                  ex.settings.max_retries fresh budget in
              (
                (r, after, reported),
                rw (on, e),
                omega (arith, le, execute_legs-length env request ex.sent),
              )
        ]

    -- `execute_sync` returns, and sends at most two orders and the retries of one recovery.
    pub execute_sync-bounded :
        (original : DualOrderRequest D) (ex : Executor D)
        → (out : DualOrderResult D × Executor D × Option (RecoveryResult D)) × (execute_sync num env
              original ex
            ≡ some out)
          × (length out.1.sent ≤ length ex.sent + 2 + ex.settings.max_retries)
    unfolding execute_sync
    execute_sync-bounded original ex =
        let request = identify env.now original in
        elim (Option-cases (refusal num env request)) [
          | inl accepted ↦
              let (out, e, le) = send_legs-bounded request ex in
              (out, rw (accepted, execute_sync, e), le)
          | inr (r, refused) ↦ ((r, ex, none), rw (refused, execute_sync), omega arith)
        ]

    -- A request that is not valid, or names an exchange without a client, is answered without a
    -- success, and the executor stays as it is: no order is sent and nothing is counted.
    pub execute_sync-refused :
        (original : DualOrderRequest D) (ex : Executor D)
        → (is_valid num (identify env.now original) ≡ false)
          ⊎ (has_exchange env.clients (identify env.now original).buy_order.exchange ≡ false)
          ⊎ (has_exchange env.clients (identify env.now original).sell_order.exchange ≡ false)
        → (r : DualOrderResult D) × (execute_sync num env original ex ≡ some (r, ex, none))
          × (any_success r ≡ false)
    unfolding execute_sync refusal dual_result blank_leg any_success is_success has_value
    execute_sync-refused original ex why =
        let request = identify env.now original in
        let problem = λ (ex : Exchange).
          blank_leg env
            (if not (has_exchange env.clients ex) then some invalid_request else none) in
        elim (Bool-cases (is_valid num request)) [
          | inr invalid ↦ (
            dual_result num env request (blank_leg env (some invalid_request))
                (blank_leg env (some invalid_request)),
            rw (invalid, execute_sync, refusal),
            refl,
          )
          | inl valid ↦ (
            dual_result num env request (problem request.buy_order.exchange)
                (problem request.sell_order.exchange),
            ground arith,
            refl,
          )
        ]
