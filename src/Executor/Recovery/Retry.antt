-- ===== src/Executor/Recovery/Retry.antt =====
-- `execute_with_retry` returns, sends the recovery order a bounded number of times, and reports
-- what happened.
use kac.Base.{
  ℕ, zero, suc, ◌+◌, ◌-◌, ◌≤◌, ◌<◌, ◌≡◌, ◌⊎◌, inl, inr, refl, subst, true, false, Option, none,
  some, List, ◌∷◌, arith, Bool-cases, Option-cases, length,
}
use kac.Word.{add64}
use kac.Executor.Order.{OrderRequest}
use kac.Executor.Result.{
  SingleOrderResult, RecoveryPlan, needs_execution, can_retry, increment_retry, is_success,
}
use kac.Executor.Recovery.{
  Stats, Settings, RecoveryResult, Clients, execute_order, retry_loop, execute_with_retry,
}

-- `Sends order n before after`: at most `n` copies of `order` were sent, and nothing else.
pub data Sends {D : Type 0} (order : OrderRequest D)
    : ℕ → List (OrderRequest D) → List (OrderRequest D) → Type 0 where
  rest : {n : ℕ} {before : List (OrderRequest D)} → Sends order n before before
  refused :
      {n : ℕ} {before after : List (OrderRequest D)}
      → Sends order n before after
      → Sends order (suc n) before after
  sent :
      {n : ℕ} {before after : List (OrderRequest D)}
      → Sends order n (order ∷ before) after
      → Sends order (suc n) before after

pub length-Sends :
    {D : Type 0} (order : OrderRequest D) {n : ℕ} {before after : List (OrderRequest D)}
    → Sends order n before after
    → length after ≤ length before + n
length-Sends order rest = omega arith
length-Sends order (refused s) = omega (arith, length-Sends order s)
length-Sends order (sent s) = omega (arith, length-Sends order s)

module _ {D : Type 0} (clients : Clients D) (order : OrderRequest D) where
  -- One call of `execute_order` sends the order, or nothing.
  execute_order-sent :
      (before : List (OrderRequest D))
      → ((execute_order clients order before).1 ≡ before)
        ⊎ ((execute_order clients order before).1 ≡ order ∷ before)
  unfolding execute_order
  execute_order-sent before = elim (Option-cases (clients order.exchange)) [
    | inl missing ↦ inl (ground arith)
    | inr (place_order, found) ↦ inr (ground arith)
  ]

  Sends-execute_order :
      {n m : ℕ} {before after : List (OrderRequest D)}
      → Sends order n (execute_order clients order before).1 after
      → suc n ≡ m
      → Sends order m before after
  Sends-execute_order {n} {m} {before} {after} s e =
      subst (λ k. Sends order k before after) e
        (elim (execute_order-sent before) [
          | inl same ↦ refused (subst (λ b. Sends order n b after) same s)
          | inr one ↦ sent (subst (λ b. Sends order n b after) one s)
        ])

module _ {D : Type 0} where
  -- What a run of the loop that began with `plan` and `before` may return.
  pub record IsOutcome (settings : Settings) (plan : RecoveryPlan D) (stats : Stats)
      (before : List (OrderRequest D)) (out : RecoveryResult D × Stats × List (OrderRequest D))
      : Type 0 where
    pub orders : Sends plan.recovery_order (plan.max_retries - plan.retry_count) before out.2
    pub success_shown :
        out.0.success ≡ true
        → (settings.dry_run ≡ true)
          ⊎ ((answer : SingleOrderResult D) × (out.0.result ≡ some answer)
              × (is_success answer ≡ true))
    pub failure_exhausts : out.0.success ≡ false → out.0.plan.retry_count ≡ plan.max_retries
    pub counted_once :
        add64 out.1.successes out.1.failures ≡ add64 (add64 stats.successes stats.failures) 1

  module _ (clients : Clients D) (settings : Settings) where
    pub loop-IsOutcome :
        (fuel : ℕ) (plan : RecoveryPlan D) (last : Option (SingleOrderResult D)) (stats : Stats)
        (before : List (OrderRequest D))
        → plan.retry_count ≤ plan.max_retries
        → plan.max_retries - plan.retry_count < fuel
        → (out : RecoveryResult D × Stats × List (OrderRequest D)) × (retry_loop clients settings
              fuel plan last stats before
            ≡ some out)
          × IsOutcome settings plan stats before out
    unfolding retry_loop can_retry increment_retry
    loop-IsOutcome zero plan last stats before le lt = absurd (omega arith)
    loop-IsOutcome (suc fuel) plan last stats before le lt = elim (Bool-cases (can_retry plan)) [
      | inr done ↦ (
        (
          record { plan = plan; result = last; success = false },
          record stats { failures = add64 stats.failures 1 },
          before,
        ),
        ground arith,
        record {
          orders = rest;
          success_shown = λ e. absurd (ground arith);
          failure_exhausts = λ e. ground arith;
          counted_once = omega arith;
        },
      )
      | inl more ↦ elim (Bool-cases settings.dry_run) [
        | inl dry ↦ (
          (
            record { plan = plan; result = last; success = true },
            record stats { successes = add64 stats.successes 1 },
            before,
          ),
          ground arith,
          record {
            orders = rest;
            success_shown = λ e. inl dry;
            failure_exhausts = λ e. absurd (ground arith);
            counted_once = omega arith;
          },
        )
        | inr wet ↦
            elim (Bool-cases (is_success ((execute_order clients plan.recovery_order before).0))) [
              | inl good ↦ (
                (
                  record {
                    plan = plan;
                    result = some (execute_order clients plan.recovery_order before).0;
                    success = true;
                  },
                  record stats { successes = add64 stats.successes 1 },
                  (execute_order clients plan.recovery_order before).1,
                ),
                ground arith,
                record {
                  orders =
                      Sends-execute_order clients plan.recovery_order
                        {n = plan.max_retries - plan.retry_count - 1} rest (ground arith);
                  success_shown =
                      λ e. inr ((execute_order clients plan.recovery_order before).0, refl, good);
                  failure_exhausts = λ e. absurd (ground arith);
                  counted_once = omega arith;
                },
              )
              | inr bad ↦
                  let (out, e, o) =
                    loop-IsOutcome fuel (increment_retry plan)
                      (some (execute_order clients plan.recovery_order before).0)
                      (record stats { retries = add64 stats.retries 1 })
                      (execute_order clients plan.recovery_order before).1 (ground arith)
                      (ground arith) in
                  (
                    out,
                    ground (arith, e),
                    record {
                      orders =
                          Sends-execute_order clients plan.recovery_order o.orders (ground arith);
                      success_shown = o.success_shown;
                      failure_exhausts = o.failure_exhausts;
                      counted_once = o.counted_once;
                    },
                  )
            ]
      ]
    ]

    -- A plan that needs execution is run to its end: the call returns, it sends at most
    -- `max_retries - retry_count` orders, each of them the recovery order, it reports success only
    -- in a dry run or with a successful answer, it reports failure only when the retries are used
    -- up, and it counts one success or one failure.
    pub execute_with_retry-IsOutcome :
        (plan : RecoveryPlan D) (stats : Stats) (before : List (OrderRequest D))
        → needs_execution plan.action ≡ true
        → plan.retry_count ≤ plan.max_retries
        → (out : RecoveryResult D × Stats × List (OrderRequest D)) × (execute_with_retry clients
              settings plan stats before
            ≡ some out)
          × IsOutcome settings plan stats before out
    unfolding execute_with_retry
    execute_with_retry-IsOutcome plan stats before needed le =
        let (out, e, o) =
          loop-IsOutcome (suc (plan.max_retries - plan.retry_count)) plan none
            (record stats { executions = add64 stats.executions 1 }) before le (omega arith) in
        (
          out,
          ground (arith, e),
          record {
            orders = o.orders;
            success_shown = o.success_shown;
            failure_exhausts = o.failure_exhausts;
            counted_once = o.counted_once;
          },
        )
