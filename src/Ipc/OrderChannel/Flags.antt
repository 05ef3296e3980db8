-- ===== src/Ipc/OrderChannel/Flags.antt =====
-- What the record of a result in shared memory says of it.
use kac.Base.{◌≡◌, refl, not, ◌&&◌, Option-Holds, arith, ap₂, ◌∙◌, ℕ}
use kac.Executor.Number.{Double}
use kac.Executor.Order.{ends_filled}
use kac.Executor.Result.{
  SingleOrderResult, DualOrderResult, Error, is_success, is_filled, is_failed, has_value, status_of,
  any_success,
}
use kac.Executor.Result
use kac.Ipc.OrderChannel.{
  ShmSingleOrderResult, to_shm_single, to_shm, both_success, both_filled, partial_fill,
}

module _ {D : Type 0} (num : Double D) (error_number : Error → ℕ) where
  success-eq :
      (leg : SingleOrderResult D) → (to_shm_single num error_number leg).success ≡ is_success leg
  unfolding to_shm_single
  success-eq leg =
      Option-Holds (λ (x : ShmSingleOrderResult D). x.success ≡ is_success leg) leg.result
        (λ e. refl) (λ r e. refl)

  filled-eq :
      (leg : SingleOrderResult D)
      → ((to_shm_single num error_number leg).success
          && ends_filled (to_shm_single num error_number leg).status)
        ≡ is_filled leg
  unfolding to_shm_single is_filled is_success status_of has_value ends_filled
  filled-eq leg =
      Option-Holds
        (λ (x : ShmSingleOrderResult D). (x.success && ends_filled x.status) ≡ is_filled leg)
        leg.result (λ e. ground (arith, e)) (λ r e. ground (arith, e))

  -- Of every result, the record that `to_shm` makes says both_success and both_filled exactly if
  -- the result does, and partial_fill exactly if one of its legs is successful and not both.
  pub to_shm-flags :
      (fx_rate : D) (r : DualOrderResult D)
      → let shm = to_shm num error_number fx_rate r in
        (both_success shm ≡ Result.both_success r)
        × (both_filled shm ≡ Result.both_filled r)
        × (partial_fill shm ≡ (any_success r && not (Result.both_success r)))
  unfolding to_shm both_success both_filled partial_fill Result.both_success Result.both_filled
      any_success
  to_shm-flags fx_rate r =
      let buy = success-eq r.buy_result in
      let sell = success-eq r.sell_result in
      (
        ap₂ ◌&&◌ buy sell,
        ground (arith, filled-eq r.buy_result, filled-eq r.sell_result),
        ground (arith, buy, sell),
      )

  -- The result says partial_fill of itself exactly where the record does, if each of its legs is
  -- failed exactly if it is not successful.
  pub partial_fill-to_shm :
      (fx_rate : D) (r : DualOrderResult D)
      → is_failed r.buy_result ≡ not (is_success r.buy_result)
      → is_failed r.sell_result ≡ not (is_success r.sell_result)
      → partial_fill (to_shm num error_number fx_rate r) ≡ Result.partial_fill r
  unfolding Result.partial_fill Result.both_success any_success
  partial_fill-to_shm fx_rate r buy_clear sell_clear =
      (to_shm-flags fx_rate r).2 ∙ ground (arith, buy_clear, sell_clear)
