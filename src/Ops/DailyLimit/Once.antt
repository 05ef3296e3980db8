-- ===== src/Ops/DailyLimit/Once.antt =====
-- Between two resets each callback of `DailyLossLimiter` is called at most once, and the history of
-- trades stays within its bounds.
use kac.Base.{
  ℕ, suc, ◌+◌, ◌≤◌, ◌≡◌, Bool, true, false, List, [], ◌∷◌, ◌++◌, arith, bit, count_if, if-Holds,
  subst,
}
use kac.Executor.Number.{Double}
use kac.Ops.DailyLimit.{
  DailyLossLimiter, Count, Notice, Call, TradeRecord, warns, criticals, kills, trades, amounts,
  revalues, resets, configures, limits, call, calls_all, calls, alarms, usage, check_warning,
  check_critical, check_limit, check_and_trigger, note_trade, record_trade, record_amounts,
  update_unrealized_pnl, reset, set_config, set_limit, current_loss,
}

abbrev pub is_warning : {D : Type 0} → Notice D → Bool
is_warning (warns a b c) = true
is_warning other = false

abbrev pub is_critical : {D : Type 0} → Notice D → Bool
is_critical (criticals a b c) = true
is_critical other = false

abbrev pub is_kill : {D : Type 0} → Notice D → Bool
is_kill kills = true
is_kill other = false

abbrev pub is_reset : {D : Type 0} → Call D → Bool
is_reset (resets now) = true
is_reset other = false

pub count_if-append :
    {A : Type 0} (p : A → Bool) (xs ys : List A)
    → count_if p (xs ++ ys) ≡ count_if p xs + count_if p ys
count_if-append p [] ys = omega arith
count_if-append p (x ∷ xs) ys = omega (arith, count_if-append p xs ys)

-- Each kind of callback was called at most once for every reset and once more if its flag is up.
pub record Within {D : Type 0} (n : ℕ) (l : DailyLossLimiter D) : Type 0 where
  pub warned : count_if is_warning l.notices ≤ n + bit l.warning_triggered
  pub critical : count_if is_critical l.notices ≤ n + bit l.critical_triggered
  pub killed : count_if is_kill l.notices ≤ n + bit l.limit_reached

module _ {D : Type 0} (num : Double D) {n : ℕ} where
  check_warning-Within : (l : DailyLossLimiter D) → Within n l → Within n (check_warning num l)
  unfolding check_warning calls
  check_warning-Within l w =
      let added =
        calls l.has_warning
          (warns (current_loss num l) l.config.daily_loss_limit_krw (usage num l)) in
      ground (
        arith,
        count_if-append is_warning l.notices added,
        count_if-append is_critical l.notices added,
        count_if-append is_kill l.notices added,
      )

  check_critical-Within : (l : DailyLossLimiter D) → Within n l → Within n (check_critical num l)
  unfolding check_critical calls
  check_critical-Within l w =
      let added =
        calls l.has_critical
          (criticals (current_loss num l) l.config.daily_loss_limit_krw (usage num l)) in
      ground (
        arith,
        count_if-append is_warning l.notices added,
        count_if-append is_critical l.notices added,
        count_if-append is_kill l.notices added,
      )

  check_limit-Within : (l : DailyLossLimiter D) → Within n l → Within n (check_limit num l)
  unfolding check_limit calls alarms
  check_limit-Within l w = ground (
    arith,
    count_if-append is_warning l.notices (alarms num l),
    count_if-append is_critical l.notices (alarms num l),
    count_if-append is_kill l.notices (alarms num l),
  )

  check_and_trigger-Within :
      (l : DailyLossLimiter D) → Within n l → Within n (check_and_trigger num l)
  unfolding check_and_trigger
  check_and_trigger-Within l w =
      let warned = check_warning-Within l w in
      let critical = check_critical-Within (check_warning num l) warned in
      let limited = check_limit-Within (check_critical num (check_warning num l)) critical in
      if-Holds (Within n) (num.le (current_loss num l) num.zero_qty) (λ fine. w) (λ losing. limited)

module _ {D : Type 0} (num : Double D) (count : Count D) where
  record_trade-Within :
      {n : ℕ} (now : ℕ) (trade : TradeRecord D) (l : DailyLossLimiter D)
      → Within n l
      → Within n (record_trade num count now trade l).1
  unfolding record_trade note_trade
  record_trade-Within {n = n} now trade l w =
      let noted =
        check_and_trigger-Within num (note_trade num count now trade l)
          (record { warned = w.warned; critical = w.critical; killed = w.killed }) in
      if-Holds (λ (answer : Bool × DailyLossLimiter D). Within n answer.1) l.limit_reached
        (λ over. w) (λ going. noted)

  -- no reset more leaves the bound
  enough : {n : ℕ} {l : DailyLossLimiter D} → Within n l → Within (n + 0) l
  enough w = record {
    warned = omega (arith, w.warned);
    critical = omega (arith, w.critical);
    killed = omega (arith, w.killed);
  }

  call-Within :
      {n : ℕ} (c : Call D) (l : DailyLossLimiter D)
      → Within n l
      → Within (n + bit (is_reset c)) (call num count c l)
  unfolding call update_unrealized_pnl reset set_config set_limit record_amounts
  call-Within (trades now trade) l w = enough (record_trade-Within now trade l w)
  call-Within (amounts now pnl volume) l w = enough (
      record_trade-Within now
        (record { trade_id = []; pnl_krw = pnl; volume_krw = volume; timestamp = now; notes = [] })
        l w)
  call-Within (revalues unrealized) l w = ground arith
  call-Within (resets now) l w = ground arith
  call-Within (configures config) l w = ground arith
  call-Within (limits limit) l w = ground arith

  calls_all-Within :
      (n : ℕ) (cs : List (Call D)) (l : DailyLossLimiter D)
      → Within n l
      → Within (n + count_if is_reset cs) (calls_all num count cs l)
  unfolding calls_all
  calls_all-Within n [] l w = enough w
  calls_all-Within n (c ∷ cs) l w =
      subst (λ m. Within m (calls_all num count cs (call num count c l))) (omega arith)
        (calls_all-Within (n + bit (is_reset c)) cs (call num count c l) (call-Within c l w))

  -- Whatever calls follow on a limiter that has told nothing, with all flags down, each of the
  -- warning, critical and kill-switch callbacks is called at most once more often than it is reset.
  pub calls_all-once :
      (cs : List (Call D)) (l : DailyLossLimiter D)
      → l.notices ≡ []
      → let told = (calls_all num count cs l).notices in
        (count_if is_warning told ≤ suc (count_if is_reset cs))
        × (count_if is_critical told ≤ suc (count_if is_reset cs))
        × (count_if is_kill told ≤ suc (count_if is_reset cs))
  calls_all-once cs l silent =
      let start : Within 0 l = record {
        warned = ground (arith, silent);
        critical = ground (arith, silent);
        killed = ground (arith, silent);
      } in
      let w = calls_all-Within 0 cs l start in
      (ground (arith, w.warned), ground (arith, w.critical), ground (arith, w.killed))
