-- ===== src/Executor/Recovery/Plan.antt =====
-- The plan that `create_plan` makes closes the position that the two legs left open.
use kac.Base.{
  ℕ, ◌≡◌, ◌⊎◌, inl, inr, true, false, List, if◌then◌else◌, Bool-cases, refl, ap, sym, subst,
}
use kac.Executor.Number.{Double, IsDouble}
use kac.Executor.Order.{OrderRequest, set_symbol, is_buy}
use kac.Executor.Result.{DualOrderRequest, DualOrderResult, RecoveryPlan, needs_execution}
use kac.Executor.Recovery.{
  Stats, Settings, imbalance_of, create_plan, create_sell_bought_plan, create_buy_sold_plan,
  no_plan, market_order,
}

module _ {D : Type 0} (num : Double D) where
  -- the position after an order is filled whole
  pub settled : OrderRequest D → D → D
  unfolding is_buy
  settled order position =
      if is_buy order.side then num.add position order.quantity else num.sub position order.quantity

  -- the order goes to the exchange whose leg was filled more, on the other side
  pub record Closes (request : DualOrderRequest D) (position : D) (plan : RecoveryPlan D)
      : Type 0 where
    pub flat : settled plan.recovery_order position ≡ num.zero_qty
    pub real : num.lt num.zero_qty plan.recovery_order.quantity ≡ true
    pub venue : plan.recovery_order.exchange ≡ (
        if is_buy plan.recovery_order.side
        then request.sell_order.exchange
        else request.buy_order.exchange)
    pub budget : plan.retry_count ≡ 0

  -- Where arithmetic is that of finite doubles: either the legs differ by a dust at most and the
  -- plan does nothing, or the plan is executed, with an order of positive quantity on the exchange
  -- that was filled more and on the other side, which leaves a zero position once filled whole.
  pub create_plan-Closes :
      {IsFinite : D → Type 0}
      → IsDouble num IsFinite
      → (leftover : List ℕ) (settings : Settings) (request : DualOrderRequest D)
        (r : DualOrderResult D) (stats : Stats)
      → IsFinite (imbalance_of num r)
      → let plan = (create_plan num leftover settings request r stats).0 in
        ((needs_execution plan.action ≡ false)
          × (num.le (num.abs (imbalance_of num r)) num.dust_eps ≡ true))
        ⊎ ((needs_execution plan.action ≡ true) × Closes request (imbalance_of num r) plan)
  unfolding create_plan create_sell_bought_plan create_buy_sold_plan no_plan market_order set_symbol
      settled is_buy needs_execution
  create_plan-Closes laws leftover settings request r stats finite =
      elim (Bool-cases (num.le (num.abs (imbalance_of num r)) num.dust_eps)) [
        | inl dust ↦ inl (rw dust, dust)
        | inr far ↦ elim (Bool-cases (num.lt num.zero_qty (imbalance_of num r))) [
          | inl long ↦
              let e : (create_plan num leftover settings request r stats).0
                  ≡ create_sell_bought_plan num leftover settings request (imbalance_of num r) =
                rw (far, long) in
              inr (
                ap (λ (p : RecoveryPlan D). needs_execution p.action) e,
                subst (Closes request (imbalance_of num r)) (sym e) (record {
                  flat = laws.sub_self finite;
                  real = long;
                  venue = refl;
                  budget = refl;
                }),
              )
          | inr short ↦
              let e : (create_plan num leftover settings request r stats).0
                  ≡ create_buy_sold_plan num leftover settings request
                      (num.neg (imbalance_of num r)) =
                rw (far, short) in
              inr (
                ap (λ (p : RecoveryPlan D). needs_execution p.action) e,
                subst (Closes request (imbalance_of num r)) (sym e) (record {
                  flat = laws.add_neg finite;
                  real = laws.sign finite far short;
                  venue = refl;
                  budget = refl;
                }),
              )
        ]
      ]

  -- A new plan has made no attempt yet, and one that is executed has the retries of the settings.
  pub create_plan-budget :
      (leftover : List ℕ) (settings : Settings) (request : DualOrderRequest D)
      (r : DualOrderResult D) (stats : Stats)
      → let plan = (create_plan num leftover settings request r stats).0 in
        (plan.retry_count ≡ 0)
        × ((needs_execution plan.action ≡ false) ⊎ (plan.max_retries ≡ settings.max_retries))
  unfolding create_plan create_sell_bought_plan create_buy_sold_plan no_plan needs_execution
  create_plan-budget leftover settings request r stats =
      elim (Bool-cases (num.le (num.abs (imbalance_of num r)) num.dust_eps)) [
        | inl dust ↦ (rw dust, inl (rw dust))
        | inr far ↦ elim (Bool-cases (num.lt num.zero_qty (imbalance_of num r))) [
          | inl long ↦ (rw (far, long), inr (rw (far, long)))
          | inr short ↦ (rw (far, short), inr (rw (far, short)))
        ]
      ]
