-- ===== src/Ops/DailyLimit/Counts.antt =====
-- The statistics and the history of trades of `DailyLossLimiter` fit each other in every sequence of
-- calls.
use kac.Base.{
  ℕ, suc, ◌+◌, ◌≤◌, ◌≡◌, refl, Bool, not, List, [], ◌∷◌, ◌++◌, arith, if-Holds, length,
  length-append, ◌&&◌, ◌∙◌,
}
use kac.Executor.Number.{Double}
use kac.Ops.DailyLimit.{
  DailyLossLimiter, DailyStats, Count, Call, TradeRecord, call, calls_all, trim, check_warning,
  check_critical, check_limit, check_and_trigger, note_trade, record_trade, record_amounts,
  update_unrealized_pnl, reset, set_config, set_limit, update_stats, count_outcome, average_pnl,
  update_drawdown, current_loss, trades, amounts, revalues, resets, configures, limits, usage,
}

length-trim :
    {A : Type 0} (most : ℕ) (xs : List A)
    → (length (trim most xs) ≤ most) × (length (trim most xs) ≤ length xs)
unfolding trim
length-trim most [] = (omega arith, omega arith)
length-trim most (x ∷ xs) = ground (arith, length-trim most xs)

-- The counts of the statistics and the length of the history fit each other.
pub record Consistent {D : Type 0} (l : DailyLossLimiter D) : Type 0 where
  pub outcomes : l.stats.win_count + l.stats.loss_count ≤ l.stats.trade_count
  pub history : length l.trade_history ≤ l.stats.trade_count

-- the same statistics and history
abbrev Figures : {D : Type 0} → DailyLossLimiter D → DailyLossLimiter D → Type 0
Figures l m = (m.stats ≡ l.stats) × (m.trade_history ≡ l.trade_history)

module _ {D : Type 0} (num : Double D) where
  check_warning-Figures : (l : DailyLossLimiter D) → Figures l (check_warning num l)
  unfolding check_warning
  check_warning-Figures l =
      if-Holds (Figures l)
        (num.le l.config.warning_threshold_pct (usage num l) && not l.warning_triggered)
        (λ high. (refl, refl)) (λ low. (refl, refl))

  check_critical-Figures : (l : DailyLossLimiter D) → Figures l (check_critical num l)
  unfolding check_critical
  check_critical-Figures l =
      if-Holds (Figures l)
        (num.le l.config.critical_threshold_pct (usage num l) && not l.critical_triggered)
        (λ high. (refl, refl)) (λ low. (refl, refl))

  check_limit-Figures : (l : DailyLossLimiter D) → Figures l (check_limit num l)
  unfolding check_limit
  check_limit-Figures l =
      if-Holds (Figures l)
        (num.le l.config.daily_loss_limit_krw (current_loss num l) && not l.limit_reached)
        (λ high. (refl, refl)) (λ low. (refl, refl))

  check_and_trigger-Figures : (l : DailyLossLimiter D) → Figures l (check_and_trigger num l)
  unfolding check_and_trigger
  check_and_trigger-Figures l =
      let w = check_warning num l in
      let c = check_critical num w in
      let (s, h) = check_warning-Figures l in
      let (t, i) = check_critical-Figures w in
      let (u, j) = check_limit-Figures c in
      if-Holds (Figures l) (num.le (current_loss num l) num.zero_qty) (λ fine. (refl, refl))
        (λ losing. (u ∙ t ∙ s, j ∙ i ∙ h))

  update_stats-counts :
      (count : Count D) (now : ℕ) (pnl volume : D) (s : DailyStats D)
      → let t = update_stats num count now pnl volume s in
        (t.trade_count ≡ suc s.trade_count)
        × (t.win_count + t.loss_count ≤ suc (s.win_count + s.loss_count))
  unfolding update_stats count_outcome average_pnl update_drawdown
  update_stats-counts count now pnl volume s = ground arith

module _ {D : Type 0} (num : Double D) (count : Count D) where
  note_trade-Consistent :
      (now : ℕ) (trade : TradeRecord D) (l : DailyLossLimiter D)
      → Consistent l
      → Consistent (note_trade num count now trade l)
  unfolding note_trade
  note_trade-Consistent now trade l c = record {
    outcomes = omega (
      arith,
      c.outcomes,
      update_stats-counts num count now trade.pnl_krw trade.volume_krw l.stats,
    );
    history = omega (
      arith,
      c.history,
      update_stats-counts num count now trade.pnl_krw trade.volume_krw l.stats,
      length-append l.trade_history (trade ∷ []),
      length-trim l.config.max_trade_history (l.trade_history ++ trade ∷ []),
    );
  }

  record_trade-Consistent :
      (now : ℕ) (trade : TradeRecord D) (l : DailyLossLimiter D)
      → Consistent l
      → Consistent (record_trade num count now trade l).1
  unfolding record_trade
  record_trade-Consistent now trade l c =
      let noted = note_trade num count now trade l in
      let (s, h) = check_and_trigger-Figures num noted in
      let n = note_trade-Consistent now trade l c in
      if-Holds (λ (answer : Bool × DailyLossLimiter D). Consistent answer.1) l.limit_reached
        (λ over. c) (λ going. record { outcomes = rw s n.outcomes; history = rw (s, h) n.history })

  call-Consistent :
      (c : Call D) (l : DailyLossLimiter D) → Consistent l → Consistent (call num count c l)
  unfolding call record_amounts update_unrealized_pnl reset set_config set_limit update_drawdown
  call-Consistent (trades now trade) l v = record_trade-Consistent now trade l v
  call-Consistent (amounts now pnl volume) l v =
      record_trade-Consistent now
        (record { trade_id = []; pnl_krw = pnl; volume_krw = volume; timestamp = now; notes = [] })
        l v
  call-Consistent (revalues unrealized) l v = record { outcomes = v.outcomes; history = v.history }
  call-Consistent (resets now) l v = ground arith
  call-Consistent (configures config) l v = record { outcomes = v.outcomes; history = v.history }
  call-Consistent (limits limit) l v = record { outcomes = v.outcomes; history = v.history }

  -- In every sequence of calls on a limiter whose counts fit, and so from `reset` on, wins and losses
  -- together are at most the trades, and so is the length of the history.
  pub calls_all-Consistent :
      (cs : List (Call D)) (l : DailyLossLimiter D)
      → Consistent l
      → Consistent (calls_all num count cs l)
  unfolding calls_all
  calls_all-Consistent [] l v = v
  calls_all-Consistent (c ∷ cs) l v =
      calls_all-Consistent cs (call num count c l) (call-Consistent c l v)
