-- ===== src/Ops/DailyLimit/Halt.antt =====
-- Once the limit is reached `DailyLossLimiter` takes no trade until it is reset, and until then its
-- statistics and its history fit each other.
use kac.Base.{
  ℕ, ◌+◌, ◌≡◌, refl, Bool, true, false, not, List, [], ◌∷◌, arith, if-Holds, bit, count_if, length,
  replicate, ◌∙◌, ◌&&◌, ap,
}
use kac.Executor.Number.{Double}
use kac.Ops.DailyLimit.{
  DailyLossLimiter, Count, TradeRecord, calls, alarms, check_warning, check_critical, check_limit,
  check_and_trigger, note_trade, record_trade, usage, warns, criticals, current_loss,
}
use kac.Ops.DailyLimit.Once.{is_kill, count_if-append}

-- trades one after the other, with the answers
pub offer :
    {D : Type 0}
    → Double D
    → Count D
    → List (ℕ × TradeRecord D)
    → DailyLossLimiter D
    → List Bool × DailyLossLimiter D
offer num count [] l = ([], l)
offer num count ((now, trade) ∷ trades) l =
    let (taken, next) = record_trade num count now trade l in
    let (answers, last) = offer num count trades next in (taken ∷ answers, last)

module _ {D : Type 0} (num : Double D) (count : Count D) where
  record_trade-halted :
      (now : ℕ) (trade : TradeRecord D) (l : DailyLossLimiter D)
      → l.limit_reached ≡ true
      → record_trade num count now trade l ≡ (false, l)
  unfolding record_trade
  record_trade-halted now trade l over =
      if-Holds (λ (answer : Bool × DailyLossLimiter D). answer ≡ (false, l)) l.limit_reached
        (λ reached. refl) (λ going. absurd (ground (arith, over, going)))

  -- A limiter whose limit is reached answers every further trade with false and is left as it is.
  refuses :
      (trades : List (ℕ × TradeRecord D)) (l : DailyLossLimiter D)
      → l.limit_reached ≡ true
      → offer num count trades l ≡ (replicate (length trades) false, l)
  unfolding offer
  refuses [] l over = refl
  refuses ((now, trade) ∷ trades) l over =
      rw (record_trade-halted now trade l over, refuses trades l over) refl

-- What the tests of the two thresholds leave.
record Kept {D : Type 0} (l m : DailyLossLimiter D) : Type 0 where
  same_stats : m.stats ≡ l.stats
  same_config : m.config ≡ l.config
  same_limit : m.limit_reached ≡ l.limit_reached
  same_switch : m.has_kill_switch ≡ l.has_kill_switch
  same_kills : count_if is_kill m.notices ≡ count_if is_kill l.notices

module _ {D : Type 0} (num : Double D) where
  kept : (l : DailyLossLimiter D) → Kept l l
  kept l = record {
    same_stats = refl;
    same_config = refl;
    same_limit = refl;
    same_switch = refl;
    same_kills = refl;
  }

  check_warning-Kept : (l : DailyLossLimiter D) → Kept l (check_warning num l)
  unfolding check_warning calls
  check_warning-Kept l =
      let added =
        calls l.has_warning
          (warns (current_loss num l) l.config.daily_loss_limit_krw (usage num l)) in
      if-Holds (Kept l)
        (num.le l.config.warning_threshold_pct (usage num l) && not l.warning_triggered)
        (λ high. record {
          same_stats = refl;
          same_config = refl;
          same_limit = refl;
          same_switch = refl;
          same_kills = ground (arith, count_if-append is_kill l.notices added);
        })
        (λ low. kept l)

  check_critical-Kept : (l : DailyLossLimiter D) → Kept l (check_critical num l)
  unfolding check_critical calls
  check_critical-Kept l =
      let added =
        calls l.has_critical
          (criticals (current_loss num l) l.config.daily_loss_limit_krw (usage num l)) in
      if-Holds (Kept l)
        (num.le l.config.critical_threshold_pct (usage num l) && not l.critical_triggered)
        (λ high. record {
          same_stats = refl;
          same_config = refl;
          same_limit = refl;
          same_switch = refl;
          same_kills = ground (arith, count_if-append is_kill l.notices added);
        })
        (λ low. kept l)

  Kept-trans : {l m n : DailyLossLimiter D} → Kept l m → Kept m n → Kept l n
  Kept-trans a b = record {
    same_stats = b.same_stats ∙ a.same_stats;
    same_config = b.same_config ∙ a.same_config;
    same_limit = b.same_limit ∙ a.same_limit;
    same_switch = b.same_switch ∙ a.same_switch;
    same_kills = b.same_kills ∙ a.same_kills;
  }

  current_loss-Kept :
      {l m : DailyLossLimiter D} → Kept l m → current_loss num m ≡ current_loss num l
  unfolding current_loss
  current_loss-Kept k = rw (k.same_stats, k.same_config) refl

  -- the kill switch is called when it is set and wanted
  unfoldable pub rings : DailyLossLimiter D → ℕ
  rings l = bit (l.config.enable_kill_switch && l.has_kill_switch)

  alarms-rings : (l : DailyLossLimiter D) → count_if is_kill (alarms num l) ≡ rings l
  unfolding alarms calls rings
  alarms-rings l = ground arith

  check_limit-reached :
      (l : DailyLossLimiter D)
      → l.limit_reached ≡ false
      → num.le l.config.daily_loss_limit_krw (current_loss num l) ≡ true
      → ((check_limit num l).limit_reached ≡ true)
        × (count_if is_kill (check_limit num l).notices ≡ count_if is_kill l.notices + rings l)
  unfolding check_limit
  check_limit-reached l going beyond =
      if-Holds
        (λ (m : DailyLossLimiter D).
          (m.limit_reached ≡ true)
          × (count_if is_kill m.notices ≡ count_if is_kill l.notices + rings l))
        (num.le l.config.daily_loss_limit_krw (current_loss num l) && not l.limit_reached)
        (λ fires.
          (refl, omega (arith, count_if-append is_kill l.notices (alarms num l), alarms-rings l)))
        (λ silent. absurd (ground (arith, going, beyond, silent)))

  check_and_trigger-reached :
      (l : DailyLossLimiter D)
      → l.limit_reached ≡ false
      → num.le (current_loss num l) num.zero_qty ≡ false
      → num.le l.config.daily_loss_limit_krw (current_loss num l) ≡ true
      → ((check_and_trigger num l).limit_reached ≡ true)
        × (count_if is_kill (check_and_trigger num l).notices
            ≡ count_if is_kill l.notices + rings l)
  unfolding check_and_trigger rings
  check_and_trigger-reached l going losing beyond =
      let w = check_warning num l in
      let c = check_critical num w in
      let k : Kept l c = Kept-trans (check_warning-Kept l) (check_critical-Kept w) in
      let (reached, rung) =
        check_limit-reached c (k.same_limit ∙ going)
          (rw (current_loss-Kept k, k.same_config) beyond) in
      if-Holds
        (λ (m : DailyLossLimiter D).
          (m.limit_reached ≡ true)
          × (count_if is_kill m.notices ≡ count_if is_kill l.notices + rings l))
        (num.le (current_loss num l) num.zero_qty) (λ fine. absurd (ground (arith, fine, losing)))
        (λ on. (reached, rung ∙ rw (k.same_kills, k.same_config, k.same_switch) refl))

module _ {D : Type 0} (num : Double D) (count : Count D) (now : ℕ) (trade : TradeRecord D) where
  -- A trade that an open limiter takes down, and that makes the loss positive and as high as the
  -- limit, is answered with false, the kill switch is called if it is set and enabled, and every
  -- trade offered from then on is answered with false and leaves the limiter as it is.
  pub record_trade-halts :
      (later : List (ℕ × TradeRecord D)) (l : DailyLossLimiter D)
      → l.limit_reached ≡ false
      → num.le (current_loss num (note_trade num count now trade l)) num.zero_qty ≡ false
      → num.le l.config.daily_loss_limit_krw (current_loss num (note_trade num count now trade l))
        ≡ true
      → let (taken, after) = record_trade num count now trade l in
        (taken ≡ false)
        × (count_if is_kill after.notices ≡ count_if is_kill l.notices + rings num l)
        × (offer num count later after ≡ (replicate (length later) false, after))
  unfolding record_trade note_trade rings
  record_trade-halts later l going losing beyond =
      let noted = note_trade num count now trade l in
      let (reached, rung) = check_and_trigger-reached num noted going losing beyond in
      if-Holds
        (λ (answer : Bool × DailyLossLimiter D).
          (answer.0 ≡ false)
          × (count_if is_kill answer.1.notices ≡ count_if is_kill l.notices + rings num l)
          × (offer num count later answer.1 ≡ (replicate (length later) false, answer.1)))
        l.limit_reached (λ over. absurd (ground (arith, over, going)))
        (λ going_on.
          (ap not reached, rung, refuses num count later (check_and_trigger num noted) reached))
