-- ===== src/Executor/Stats/Laws.antt =====
-- The counters of `ExecutorStats` add up.
use kac.Base.{ℕ, ◌+◌, ◌%◌, ◌≤◌, ◌-◌, ◌≡◌, arith}
use kac.Word.{add64, word}
use kac.Executor.Result.{DualOrderResult}
use kac.Executor.Stats.{ExecutorStats, count_result, record_latency, record_result}

-- One request more is counted in the sum of the classes, up to the wrap-around of `uint64_t`, the extremes
-- of the latencies enclose the latest one, and the attempts of recovery are not touched.
pub record Recorded (latency : ℕ) (before after : ExecutorStats) : Type 0 where
  pub classes :
      (after.successful_dual + after.partial_success + after.total_failures) % word
      ≡ add64 ((before.successful_dual + before.partial_success + before.total_failures) % word) 1
  pub requests : after.total_requests ≡ add64 before.total_requests 1
  pub above : latency ≤ after.max_latency_us
  pub below : after.min_latency_us ≤ latency
  pub recoveries : after.recovery_attempts ≡ before.recovery_attempts

-- `record_result` counts a result once in total and once in the sum of the three classes, up to the
-- wrap-around of `uint64_t`, its latency lies between the extremes kept, and the attempts of
-- recovery stay as they are.
pub record_result-Recorded :
    {D : Type 0} (r : DualOrderResult D) (s : ExecutorStats)
    → Recorded (r.end_time - r.start_time) s (record_result r s)
unfolding record_result count_result record_latency
record_result-Recorded r s = record {
  classes = ground arith;
  requests = ground arith;
  above = ground arith;
  below = ground arith;
  recoveries = ground arith;
}
