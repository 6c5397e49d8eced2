-- ===== src/Domain/RateLimiter.antt =====
-- packages/domain/src/services.ts: `RateLimitService`, whose state is a map from keys to counters.
-- Times are milliseconds.
pub mod Windows
pub mod Tests
use telegram_job_search_auto.Common.{
  ℕ, ◌+◌, ◌-◌, String, Bool, true, false, Option, none, some, if◌then◌else◌, ltb, leb, Dict, lookup,
  insert,
}

pub record Counter : Type 0 where
  pub used : ℕ
  pub reset_at : ℕ

abbrev pub Counters : Type 0
Counters = Dict Counter

pub record LimitCall : Type 0 where
  pub key : String
  pub limit : ℕ
  pub window_ms : ℕ
  pub now : ℕ

pub record RateLimitDecision : Type 0 where
  pub key : String
  pub allowed : Bool
  pub limit : ℕ
  pub used : ℕ
  pub remaining : ℕ
  pub reset_at : ℕ

-- The counter that is still running, or a new one.
abbrev pub current_counter : Option Counter → LimitCall → Counter
current_counter none c = record { used = 0; reset_at = c.now + c.window_ms }
current_counter (some existing) c =
    if ltb c.now existing.reset_at
    then existing
    else record { used = 0; reset_at = c.now + c.window_ms }

-- `RateLimitService.check`
unfoldable pub check_limit : LimitCall → Counters → RateLimitDecision
check_limit c counters =
    let current = current_counter (lookup c.key counters) c in
    let remaining = c.limit - current.used in
    record {
      key = c.key;
      allowed = ltb 0 remaining;
      limit = c.limit;
      used = current.used;
      remaining = remaining;
      reset_at = current.reset_at;
    }

-- `RateLimitService.consume`
unfoldable pub consume : LimitCall → Counters → Counters × RateLimitDecision
unfolding check_limit
consume c counters =
    let decision = check_limit c counters in
    let used = decision.used + 1 in
    if decision.allowed
    then (
      insert c.key (record { used = used; reset_at = decision.reset_at }) counters,
      record decision { used = used; remaining = c.limit - used; allowed = leb used c.limit },
    )
    else (counters, decision)
