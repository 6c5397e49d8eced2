-- ===== src/Domain/RateLimiter/Tests.antt =====
-- The rate limiter at concrete inputs.
use telegram_job_search_auto.Common.{
  ℕ, ◌+◌, ◌≤◌, max, String, ◌≡◌, ◌≢◌, refl, inl, inr, some, List, [], ◌∷◌, lookup, insert, eq_iff,
  arith,
}
use telegram_job_search_auto.Domain.RateLimiter.{Counter, Counters, LimitCall, check_limit, consume}
use telegram_job_search_auto.Domain.RateLimiter.Windows.{granted, granted-bound}

abbrev call_at : ℕ → LimitCall
call_at now = record { key = "apply"; limit = 2; window_ms = 1000; now = now }

abbrev other_call : LimitCall
other_call = record { key = "reply"; limit = 9; window_ms = 1000; now = 150 }

abbrev running : Counter
running = record { used = 1; reset_at = 1100 }

abbrev counters : Counters
counters = ("apply", running) ∷ []

abbrev calls : List LimitCall
calls = call_at 200 ∷ other_call ∷ call_at 300 ∷ []

engine : Unit {0}
unfolding granted consume check_limit lookup insert
engine = tt

one_granted : granted "apply" calls counters ≡ 1
unfolding engine
one_granted = refl

running_there : lookup "apply" counters ≡ some running
unfolding engine
running_there = refl

abbrev reply_key : String
reply_key = "reply"

abbrev apply_key : String
apply_key = "apply"

other_key : reply_key ≢ apply_key
other_key e = cc ((eq_iff _ _).1 e)

granted-bound_example : granted "apply" calls counters + 1 ≤ max 2 1
granted-bound_example =
    granted-bound "apply" 2 running calls counters running_there
      (inr (refl, refl, omega arith), (inl other_key, (inr (refl, refl, omega arith), tt)))
