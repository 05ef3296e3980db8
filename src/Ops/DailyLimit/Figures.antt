-- ===== src/Ops/DailyLimit/Figures.antt =====
-- What `DailyStats` and `DailyLossLimiter` compute from their figures without changing them.
use kac.Base.{
  ℕ, ◌≢◌, if-Holds, Bool, true, false, not, ◌||◌, if◌then◌else◌, ◌==◌, ◌≡◌, arith, Bool-cases, inl,
  inr,
}
use kac.Executor.Number.{Double}
use kac.Ops.DailyLimit.{Count, DailyStats, DailyLossLimiter, current_loss}

module _ {D : Type 0} (num : Double D) where
  pub win_rate : Count D → DailyStats D → D
  win_rate count s =
      if s.trade_count == 0
      then num.zero_qty
      else num.mul (num.div (count.of_int s.win_count) (count.of_int s.trade_count)) num.hundred

  pub avg_win : Count D → DailyStats D → D
  avg_win count s =
      if num.lt num.zero_qty s.realized_pnl
      then num.div s.realized_pnl (count.of_int s.win_count)
      else num.zero_qty

  pub avg_loss : Count D → DailyStats D → D
  avg_loss count s =
      if num.lt s.realized_pnl num.zero_qty
      then num.div (num.neg s.realized_pnl) (count.of_int s.loss_count)
      else num.zero_qty

  pub profit_factor : Count D → DailyStats D → D
  unfolding avg_win avg_loss
  profit_factor count s =
      if (s.loss_count == 0) || (s.win_count == 0)
      then num.zero_qty
      else if count.is_zero (avg_loss count s)
      then num.zero_qty
      else num.div (avg_win count s) (avg_loss count s)

  pub remaining_limit : DailyLossLimiter D → D
  unfolding current_loss
  remaining_limit l =
      let left = num.sub l.config.daily_loss_limit_krw (current_loss num l) in
      if num.lt (current_loss num l) num.zero_qty
      then l.config.daily_loss_limit_krw
      else if num.lt num.zero_qty left
      then left
      else num.zero_qty

  pub usage_percent : DailyLossLimiter D → D
  unfolding current_loss
  usage_percent l =
      let percent =
        num.mul (num.div (current_loss num l) l.config.daily_loss_limit_krw) num.hundred in
      if num.le (current_loss num l) num.zero_qty
      then num.zero_qty
      else if num.lt percent num.hundred
      then percent
      else num.hundred

pub can_trade : {D : Type 0} → DailyLossLimiter D → Bool
can_trade l = not l.limit_reached

-- What the quotient of the averages needs of `double`: no number is on both sides of zero; zero is
-- zero; what is below zero is above it once negated; a quotient of a number above zero by a count is
-- zero or above zero; and zero divided by what is above zero is zero. A NaN is neither above nor
-- below zero.
pub record IsDividing {D : Type 0} (num : Double D) (count : Count D) : Type 0 where
  pub one_side : (x : D) → num.lt num.zero_qty x ≡ true → num.lt x num.zero_qty ≡ false
  pub zero_test : count.is_zero num.zero_qty ≡ true
  pub neg_above : (x : D) → num.lt x num.zero_qty ≡ true → num.lt num.zero_qty (num.neg x) ≡ true
  pub div_above :
      (x : D) (n : ℕ)
      → num.lt num.zero_qty x ≡ true
      → n ≢ 0
      → count.is_zero (num.div x (count.of_int n)) ≡ false
      → num.lt num.zero_qty (num.div x (count.of_int n)) ≡ true
  pub zero_div : (x : D) → num.lt num.zero_qty x ≡ true → num.div num.zero_qty x ≡ num.zero_qty

module _ {D : Type 0} (num : Double D) (count : Count D) (law : IsDividing num count) where
  -- An average loss that is not zero is above zero.
  avg_loss-above :
      (s : DailyStats D)
      → s.loss_count ≢ 0
      → count.is_zero (avg_loss num count s) ≡ false
      → num.lt num.zero_qty (avg_loss num count s) ≡ true
  unfolding avg_loss
  avg_loss-above s some_lost =
      if-Holds (λ (x : D). count.is_zero x ≡ false → num.lt num.zero_qty x ≡ true)
        (num.lt s.realized_pnl num.zero_qty)
        (λ below other.
          law.div_above (num.neg s.realized_pnl) s.loss_count (law.neg_above s.realized_pnl below)
            some_lost other)
        (λ not_below other. absurd (ground (arith, other, law.zero_test)))

  -- Where the laws of `IsDividing` hold of `double`, `profit_factor` is zero for all statistics: a
  -- day of profit has no average loss and a day of loss no average win, since both averages are
  -- taken of the realized total.
  pub profit_factor-vanishes : (s : DailyStats D) → profit_factor num count s ≡ num.zero_qty
  unfolding profit_factor avg_win
  profit_factor-vanishes s = elim (Bool-cases (num.lt num.zero_qty s.realized_pnl)) [
    | inl gain ↦
        let nothing : avg_loss num count s ≡ num.zero_qty =
          unfold avg_loss in ground (arith, law.one_side s.realized_pnl gain) in
        ground (arith, nothing, law.zero_test)
    | inr none_gained ↦ elim (Bool-cases (count.is_zero (avg_loss num count s))) [
      | inl nothing ↦ ground arith
      | inr lost ↦ elim (Bool-cases (s.loss_count == 0)) [
        | inl none_lost ↦ ground arith
        | inr some_lost ↦
            let above = avg_loss-above s (ground arith) lost in
            ground (arith, law.zero_div (avg_loss num count s) above)
      ]
    ]
  ]
