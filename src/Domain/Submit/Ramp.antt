-- ===== src/Domain/Submit/Ramp.antt =====
-- The ramp of controlled auto-apply.
use telegram_job_search_auto.Common.{min, ◌≤◌, ◌≡◌, ◌↔◌, ◌⊎◌, true, false, arith}
use telegram_job_search_auto.Domain.Submit.{RampInput, decide_ramp}

-- A run with no failed canary, no duplicate and at most 5% failures.
abbrev pub IsHealthy : RampInput → Type 0
IsHealthy i = (i.canary_passed ≡ true) × (i.failure_rate ≤ 500) × (i.duplicate_count ≡ 0)

-- Without a rollback, which happens exactly for a healthy run, the next percentage lies between 5
-- and 100 and is no lower than before (or than 100, where it was higher); with one, it is 0.
pub decide_ramp-bounds :
    (i : RampInput)
    → (((decide_ramp i).rollback ≡ false) ↔ IsHealthy i)
      × (((decide_ramp i).rollback ≡ false)
            × (5 ≤ (decide_ramp i).next_ramp_percent)
            × ((decide_ramp i).next_ramp_percent ≤ 100)
            × (min 100 i.current_ramp_percent ≤ (decide_ramp i).next_ramp_percent)
          ⊎ ((decide_ramp i).rollback ≡ true) × ((decide_ramp i).next_ramp_percent ≡ 0))
unfolding decide_ramp
decide_ramp-bounds i = ground arith
