-- ===== src/Ops/DailyLimit/Tests.antt =====
-- The theorems on `DailyLossLimiter` at whole numbers of won, with a limit of 100.
use kac.Base.{
  ℕ, ◌≢◌, zero, suc, ◌+◌, Bool, true, false, ◌≡◌, refl, List, [], ◌∷◌, ◌≤◌, count_if, ℤ, pos,
  negsuc, ◌==◌, arith,
}
use kac.Whole.{whole}
use kac.Ops.DailyLimit.{
  Count, DailyLossLimiter, TradeRecord, Call, trades, resets, amounts, calls_all, record_trade,
  fresh_stats, note_trade, update_stats, current_loss, update_drawdown, count_outcome, average_pnl,
}
use kac.Ops.DailyLimit.Figures.{IsDividing, profit_factor, profit_factor-vanishes}
use kac.Ops.DailyLimit.Once.{calls_all-once, is_warning, is_critical, is_kill}
use kac.Ops.DailyLimit.Halt.{record_trade-halts, offer, rings}
use kac.Ops.DailyLimit.Counts.{Consistent, calls_all-Consistent}

abbrev is_nought : ℤ → Bool
is_nought (pos n) = n == 0
is_nought (negsuc n) = false

abbrev counting : Count ℤ
counting = record { of_int = pos; is_zero = is_nought }

abbrev trade_of : ℤ → TradeRecord ℤ
trade_of pnl = record {
  trade_id = [];
  pnl_krw = pnl;
  volume_krw = pos 10;
  timestamp = 1;
  notes = [];
}

abbrev opening : DailyLossLimiter ℤ
opening = record {
  config = record {
    daily_loss_limit_krw = pos 100;
    warning_threshold_pct = pos 70;
    critical_threshold_pct = pos 90;
    enable_kill_switch = true;
    track_unrealized = false;
    max_trade_history = 2;
  };
  stats = fresh_stats whole 0;
  trade_history = [];
  limit_reached = false;
  warning_triggered = false;
  critical_triggered = false;
  has_kill_switch = true;
  has_warning = true;
  has_critical = true;
  has_event_bus = false;
  notices = [];
}

abbrev bad_day : List (Call ℤ)
bad_day =
    trades 1 (trade_of (negsuc 79))
    ∷ amounts 2 (pos 5) (pos 3)
    ∷ trades 3 (trade_of (negsuc 59))
    ∷ resets 4
    ∷ []

whole-zero_div : (x : ℤ) → whole.lt (pos 0) x ≡ true → whole.div (pos 0) x ≡ pos 0
whole-zero_div (pos zero) e = absurd (ground arith)
whole-zero_div (pos (suc n)) e = ground arith
whole-zero_div (negsuc n) e = absurd (ground arith)

whole-one_side : (x : ℤ) → whole.lt (pos 0) x ≡ true → whole.lt x (pos 0) ≡ false
whole-one_side (pos n) e = ground arith
whole-one_side (negsuc n) e = absurd (ground arith)

whole-neg_above : (x : ℤ) → whole.lt x (pos 0) ≡ true → whole.lt (pos 0) (whole.neg x) ≡ true
whole-neg_above (pos n) e = absurd (ground arith)
whole-neg_above (negsuc n) e = ground arith

whole-div_above :
    (x : ℤ) (n : ℕ)
    → whole.lt (pos 0) x ≡ true
    → n ≢ 0
    → is_nought (whole.div x (pos n)) ≡ false
    → whole.lt (pos 0) (whole.div x (pos n)) ≡ true
whole-div_above (pos a) n e ne other = ground arith
whole-div_above (negsuc a) n e ne other = cc

whole-IsDividing : IsDividing whole counting
whole-IsDividing = record {
  one_side = whole-one_side;
  zero_test = refl;
  neg_above = whole-neg_above;
  div_above = whole-div_above;
  zero_div = whole-zero_div;
}

opening-Consistent : Consistent opening
opening-Consistent = record { outcomes = omega arith; history = omega arith }

profit_factor-vanishes_example :
    let s =
      (calls_all whole counting
        (trades 1 (trade_of (pos 50)) ∷ trades 2 (trade_of (negsuc 9)) ∷ [])
        opening).stats in
    profit_factor whole counting s ≡ pos 0
profit_factor-vanishes_example = profit_factor-vanishes whole counting whole-IsDividing (
    (calls_all whole counting (trades 1 (trade_of (pos 50)) ∷ trades 2 (trade_of (negsuc 9)) ∷ [])
      opening).stats)

calls_all-once_example :
    let told = (calls_all whole counting bad_day opening).notices in
    (count_if is_warning told ≤ 2) × (count_if is_critical told ≤ 2) × (count_if is_kill told ≤ 2)
calls_all-once_example = calls_all-once whole counting bad_day opening refl

record_trade-halts_example :
    let (taken, after) = record_trade whole counting 5 (trade_of (negsuc 149)) opening in
    (taken ≡ false)
    × (count_if is_kill after.notices ≡ 0 + 1)
    × (offer whole counting ((6, trade_of (pos 900)) ∷ []) after ≡ (false ∷ [], after))
unfolding current_loss note_trade update_stats update_drawdown count_outcome average_pnl rings
record_trade-halts_example =
    record_trade-halts whole counting 5 (trade_of (negsuc 149)) ((6, trade_of (pos 900)) ∷ [])
      opening refl refl refl

calls_all-Consistent_example : Consistent (calls_all whole counting bad_day opening)
calls_all-Consistent_example =
    calls_all-Consistent whole counting bad_day opening opening-Consistent
