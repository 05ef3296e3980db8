-- ===== src/Executor/Stats.antt =====
-- include/arbitrage/executor/types.hpp: `ExecutorStats`. Each call is one step; the clock is steady,
-- so latencies are not negative.
pub mod Laws
use kac.Base.{
  ℕ, ℤ, pos, negsuc, ltb, ◌%◌, ◌-◌, ◌^◌, ◌+◌, Bool, true, false, if◌then◌else◌, max, min, ◌≡◌, ◌≤◌,
  arith,
}
use kac.Word.{add64}
use kac.Executor.Result.{DualOrderResult, both_success, partial_fill, is_success, is_failed}

pub record ExecutorStats : Type 0 where
  pub total_requests : ℕ
  pub successful_dual : ℕ
  pub partial_success : ℕ
  pub total_failures : ℕ
  pub recovery_attempts : ℕ
  pub recovery_success : ℕ
  pub total_latency_us : ℤ
  pub max_latency_us : ℕ
  pub min_latency_us : ℕ

abbrev pub int64_max : ℕ
int64_max = 2 ^ 63 - 1

pub reset : ExecutorStats
reset = record {
  total_requests = 0;
  successful_dual = 0;
  partial_success = 0;
  total_failures = 0;
  recovery_attempts = 0;
  recovery_success = 0;
  total_latency_us = pos 0;
  max_latency_us = 0;
  min_latency_us = int64_max;
}

-- the 64 bits of an `int64_t`, and the `int64_t` of 64 bits
pub bits64 : ℤ → ℕ
bits64 (pos n) = n % 2 ^ 64
bits64 (negsuc n) = 2 ^ 64 - 1 - n % 2 ^ 64

pub to_int64 : ℕ → ℤ
to_int64 bits = if ltb bits (2 ^ 63) then pos bits else negsuc (2 ^ 64 - 1 - bits)

-- `fetch_add` on an `int64_t` wraps around.
pub record_latency : ℕ → ExecutorStats → ExecutorStats
record_latency latency_us s = record s {
  total_latency_us = to_int64 (add64 (bits64 s.total_latency_us) latency_us);
  max_latency_us = max s.max_latency_us latency_us;
  min_latency_us = min s.min_latency_us latency_us;
}

pub count_result : {D : Type 0} → DualOrderResult D → ExecutorStats → ExecutorStats
count_result r s =
    if both_success r
    then record s { successful_dual = add64 s.successful_dual 1 }
    else if partial_fill r
    then record s { partial_success = add64 s.partial_success 1 }
    else record s { total_failures = add64 s.total_failures 1 }

pub record_result : {D : Type 0} → DualOrderResult D → ExecutorStats → ExecutorStats
unfolding count_result record_latency
record_result r s =
    record_latency (r.end_time - r.start_time)
      (count_result r (record s { total_requests = add64 s.total_requests 1 }))

pub record_recovery : Bool → ExecutorStats → ExecutorStats
record_recovery success s =
    let counted = record s { recovery_attempts = add64 s.recovery_attempts 1 } in
    if success then record counted { recovery_success = add64 s.recovery_success 1 } else counted
