-- ===== src/Ops/DailyLimit.antt =====
-- include/arbitrage/ops/daily_limit.hpp, src/ops/daily_limit.cpp: `DailyLossLimiter`. Each call is
-- one step; the clock of a call is an argument. A callback is known by whether it is set, the calls
-- of callbacks and the events published are `notices`, and a callback does not call the limiter.
-- The counters are `int`, far from their end.
pub mod Figures
pub mod Once
pub mod Halt
pub mod Counts
mod Tests
use kac.Base.{
  ℕ, zero, suc, ◌+◌, Bool, true, false, not, ◌&&◌, ◌||◌, List, [], ◌∷◌, ◌++◌, if◌then◌else◌, ltb,
  length, ◌==◌,
}
use kac.Executor.Number.{Double}

-- What the limiter asks of `double` beside the arithmetic: an `int` as one, and the test for zero.
pub record Count (D : Type 0) : Type 0 where
  pub of_int : ℕ → D
  pub is_zero : D → Bool

pub record DailyStats (D : Type 0) : Type 0 where
  pub realized_pnl : D
  pub unrealized_pnl : D
  pub total_pnl : D
  pub max_drawdown : D
  pub peak_pnl : D
  pub trade_count : ℕ
  pub win_count : ℕ
  pub loss_count : ℕ
  pub total_volume : D
  pub avg_trade_pnl : D
  pub largest_win : D
  pub largest_loss : D
  pub reset_time : ℕ
  pub last_trade : ℕ

pub record TradeRecord (D : Type 0) : Type 0 where
  pub trade_id : List ℕ
  pub pnl_krw : D
  pub volume_krw : D
  pub timestamp : ℕ
  pub notes : List ℕ

pub record DailyLimitConfig (D : Type 0) : Type 0 where
  pub daily_loss_limit_krw : D
  pub warning_threshold_pct : D
  pub critical_threshold_pct : D
  pub enable_kill_switch : Bool
  pub track_unrealized : Bool
  pub max_trade_history : ℕ

-- a callback that is called, or an event that is published, with its figures
pub data Notice (D : Type 0) : Type 0 where
  warns : (current_loss limit usage_pct : D) → Notice D
  criticals : (current_loss limit usage_pct : D) → Notice D
  kills : Notice D
  limit_event : (loss_amount limit : D) → Notice D
  kill_event : Notice D

pub record DailyLossLimiter (D : Type 0) : Type 0 where
  pub config : DailyLimitConfig D
  pub stats : DailyStats D
  pub trade_history : List (TradeRecord D)
  pub limit_reached : Bool
  pub warning_triggered : Bool
  pub critical_triggered : Bool
  pub has_kill_switch : Bool
  pub has_warning : Bool
  pub has_critical : Bool
  pub has_event_bus : Bool
  pub notices : List (Notice D)

-- the oldest entries are erased until at most `most` are left
unfoldable pub trim : {A : Type 0} → ℕ → List A → List A
trim most [] = []
trim most (x ∷ xs) = let rest = trim most xs in if ltb most (length (x ∷ xs)) then rest else x ∷ xs

-- a callback that is set is called
unfoldable pub calls : {D : Type 0} → Bool → Notice D → List (Notice D)
calls present n = if present then n ∷ [] else []

module _ {D : Type 0} (num : Double D) where
  -- `DailyStats()`, at the time `now`
  abbrev pub fresh_stats : ℕ → DailyStats D
  fresh_stats now = record {
    realized_pnl = num.zero_qty;
    unrealized_pnl = num.zero_qty;
    total_pnl = num.zero_qty;
    max_drawdown = num.zero_qty;
    peak_pnl = num.zero_qty;
    trade_count = 0;
    win_count = 0;
    loss_count = 0;
    total_volume = num.zero_qty;
    avg_trade_pnl = num.zero_qty;
    largest_win = num.zero_qty;
    largest_loss = num.zero_qty;
    reset_time = now;
    last_trade = 0;
  }

  -- the peak of the profit and the fall from it, which two operations update
  pub update_drawdown : DailyStats D → DailyStats D
  update_drawdown s =
      let peak = if num.lt s.peak_pnl s.total_pnl then s.total_pnl else s.peak_pnl in
      let fall = num.sub peak s.total_pnl in
      record s {
        peak_pnl = peak;
        max_drawdown = if num.lt s.max_drawdown fall then fall else s.max_drawdown;
      }

  -- the count of wins and losses
  pub count_outcome : D → DailyStats D → DailyStats D
  count_outcome pnl_krw s =
      if num.lt num.zero_qty pnl_krw
      then record s {
        win_count = suc s.win_count;
        largest_win = if num.lt s.largest_win pnl_krw then pnl_krw else s.largest_win;
      }
      else if num.lt pnl_krw num.zero_qty
      then record s {
        loss_count = suc s.loss_count;
        largest_loss = if num.lt pnl_krw s.largest_loss then pnl_krw else s.largest_loss;
      }
      else s

  pub average_pnl : Count D → DailyStats D → DailyStats D
  average_pnl count s =
      if ltb 0 s.trade_count
      then record s { avg_trade_pnl = num.div s.realized_pnl (count.of_int s.trade_count) }
      else s

  pub update_stats : Count D → ℕ → D → D → DailyStats D → DailyStats D
  update_stats count now pnl_krw volume_krw s =
      let realized = num.add s.realized_pnl pnl_krw in
      update_drawdown (
        average_pnl count (
          count_outcome pnl_krw (record s {
            realized_pnl = realized;
            total_pnl = num.add realized s.unrealized_pnl;
            trade_count = suc s.trade_count;
            total_volume = num.add s.total_volume volume_krw;
            last_trade = now;
          })))

  -- `current_loss`, with or without what is not realized
  unfoldable pub current_loss : DailyLossLimiter D → D
  current_loss l =
      if l.config.track_unrealized then num.neg l.stats.total_pnl else num.neg l.stats.realized_pnl

  pub usage : DailyLossLimiter D → D
  usage l = num.mul (num.div (current_loss l) l.config.daily_loss_limit_krw) num.hundred

  pub check_warning : DailyLossLimiter D → DailyLossLimiter D
  check_warning l =
      if num.le l.config.warning_threshold_pct (usage l) && not l.warning_triggered
      then record l {
        warning_triggered = true;
        notices =
            l.notices
            ++ calls l.has_warning (warns (current_loss l) l.config.daily_loss_limit_krw (usage l));
      }
      else l

  pub check_critical : DailyLossLimiter D → DailyLossLimiter D
  check_critical l =
      if num.le l.config.critical_threshold_pct (usage l) && not l.critical_triggered
      then record l {
        critical_triggered = true;
        notices =
            l.notices
            ++ calls l.has_critical
                (criticals (current_loss l) l.config.daily_loss_limit_krw (usage l));
      }
      else l

  -- what is told when the limit is reached: the kill switch, then the event bus
  pub alarms : DailyLossLimiter D → List (Notice D)
  alarms l =
      if l.config.enable_kill_switch
      then calls l.has_kill_switch kills
        ++ (if l.has_event_bus
            then limit_event (current_loss l) l.config.daily_loss_limit_krw ∷ kill_event ∷ []
            else [])
      else []

  pub check_limit : DailyLossLimiter D → DailyLossLimiter D
  check_limit l =
      if num.le l.config.daily_loss_limit_krw (current_loss l) && not l.limit_reached
      then record l { limit_reached = true; notices = l.notices ++ alarms l }
      else l

  pub check_and_trigger : DailyLossLimiter D → DailyLossLimiter D
  check_and_trigger l =
      if num.le (current_loss l) num.zero_qty
      then l
      else check_limit (check_critical (check_warning l))

  -- the second half of both overloads of `record_trade`, under the lock
  pub note_trade : Count D → ℕ → TradeRecord D → DailyLossLimiter D → DailyLossLimiter D
  note_trade count now trade l = record l {
    stats = update_stats count now trade.pnl_krw trade.volume_krw l.stats;
    trade_history = trim l.config.max_trade_history (l.trade_history ++ trade ∷ []);
  }

  -- `record_trade(const TradeRecord&)`
  pub record_trade : Count D → ℕ → TradeRecord D → DailyLossLimiter D → Bool × DailyLossLimiter D
  record_trade count now trade l =
      if l.limit_reached
      then (false, l)
      else (let after = check_and_trigger (note_trade count now trade l) in
          (not after.limit_reached, after))

  -- `record_trade(double, double)`
  pub record_amounts : Count D → ℕ → D → D → DailyLossLimiter D → Bool × DailyLossLimiter D
  record_amounts count now pnl volume =
      record_trade count now
        (record { trade_id = []; pnl_krw = pnl; volume_krw = volume; timestamp = now; notes = [] })

  pub update_unrealized_pnl : D → DailyLossLimiter D → DailyLossLimiter D
  update_unrealized_pnl unrealized l = record l {
    stats = update_drawdown (record (l.stats) {
      unrealized_pnl = unrealized;
      total_pnl = num.add l.stats.realized_pnl unrealized;
    });
  }

  pub reset : ℕ → DailyLossLimiter D → DailyLossLimiter D
  reset now l = record l {
    stats = record (fresh_stats now) { reset_time = now };
    trade_history = [];
    limit_reached = false;
    warning_triggered = false;
    critical_triggered = false;
  }

  pub set_config : DailyLimitConfig D → DailyLossLimiter D → DailyLossLimiter D
  set_config config l = record l { config = config }

  pub set_limit : D → DailyLossLimiter D → DailyLossLimiter D
  set_limit limit l = record l { config = record (l.config) { daily_loss_limit_krw = limit } }

-- A call of the limiter that changes it.
pub data Call (D : Type 0) : Type 0 where
  trades : (now : ℕ) → TradeRecord D → Call D
  amounts : (now : ℕ) → (pnl volume : D) → Call D
  revalues : D → Call D
  resets : (now : ℕ) → Call D
  configures : DailyLimitConfig D → Call D
  limits : D → Call D

module _ {D : Type 0} (num : Double D) (count : Count D) where
  pub call : Call D → DailyLossLimiter D → DailyLossLimiter D
  call (trades now trade) l = (record_trade num count now trade l).1
  call (amounts now pnl volume) l = (record_amounts num count now pnl volume l).1
  call (revalues unrealized) l = update_unrealized_pnl num unrealized l
  call (resets now) l = reset num now l
  call (configures config) l = set_config num config l
  call (limits limit) l = set_limit num limit l

  pub calls_all : List (Call D) → DailyLossLimiter D → DailyLossLimiter D
  calls_all [] l = l
  calls_all (c ∷ cs) l = calls_all cs (call c l)
