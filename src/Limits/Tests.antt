-- ===== src/Limits/Tests.antt =====
-- The limits at concrete inputs.
use telegram_job_search_auto.Common.{
  ℕ, ◌<◌, ◌≤◌, String, true, false, ◌≡◌, refl, ◌↔◌, none, some, [], ◌∷◌, List, arith,
}
use telegram_job_search_auto.Domain.Samples.{sample_profile, sample_job}
use telegram_job_search_auto.Domain.Submit.{Timestamp}
use telegram_job_search_auto.Limits.{
  ApplicationLimitRecord, build_window_check, hour_ms, in_window, insert_sorted, sort,
}
use telegram_job_search_auto.Limits.Rules.{
  ApplicationLimitInput, ReplyLimitInput, evaluate_application_rate_limits,
}
use telegram_job_search_auto.Limits.Windows.{build_window_check-reset}
use telegram_job_search_auto.Limits.Assess.{HasRoom, evaluate_application_rate_limits-allowed_iff}

abbrev same_text : String → String
same_text s = s

abbrev now : ℕ
now = 10000000

abbrev times : List Timestamp
times = some 9000000 ∷ none ∷ some 8000000 ∷ some 1000000 ∷ []

abbrev application : ApplicationLimitRecord
application = record {
  id = "app-1";
  job_id = "job-1";
  provider_id = "hh";
  status = "applied";
  created_at = some 8000000;
  submitted_at = some (some 9000000);
}

abbrev applications : ApplicationLimitInput
applications = record {
  profile = sample_profile;
  applications = application ∷ [];
  jobs = sample_job ∷ [];
  job = sample_job;
  provider_id = none;
  include_prepared = false;
  exclude_application_id = none;
}

abbrev replies : ReplyLimitInput
replies = record {
  profile = sample_profile;
  conversations = (record { id = "conv-1"; company_name = some "Acme" }) ∷ [];
  outbound_messages =
      (record {
        id = "out-1";
        conversation_id = "conv-1";
        status = "sent";
        created_at = some 9000000;
      })
      ∷ [];
  conversation_id = "conv-1";
  exclude_outbound_message_id = none;
}

used_two : (build_window_check "w" "k" 3 times hour_ms now).used ≡ 2
unfolding build_window_check in_window insert_sorted sort
used_two = refl

used_some : 0 < (build_window_check "w" "k" 3 times hour_ms now).used
used_some = rw used_two (omega arith)

build_window_check-reset_example :
    let c = build_window_check "w" "k" 3 times hour_ms now in
    (now < c.reset_at)
    × ((11600000 < c.reset_at)
        ↔ ((build_window_check "w" "k" 3 times hour_ms 11600000).used ≡ c.used))
    × ((c.reset_at ≤ 11600000)
        ↔ ((build_window_check "w" "k" 3 times hour_ms 11600000).used < c.used))
build_window_check-reset_example =
    build_window_check-reset "w" "k" 3 times hour_ms now 11600000 (omega arith) (omega arith)
      used_some

evaluate_application_rate_limits-allowed_iff_example :
    ((evaluate_application_rate_limits same_text same_text applications now).allowed ≡ true)
    ↔ HasRoom same_text same_text applications now
evaluate_application_rate_limits-allowed_iff_example =
    evaluate_application_rate_limits-allowed_iff same_text same_text applications now
