-- ===== src/Domain/Samples.antt =====
-- A profile and a job to run the definitions on.
use telegram_job_search_auto.Common.{true, false, none, some, [], ◌∷◌}
use telegram_job_search_auto.Domain.Json.{Json}
use telegram_job_search_auto.Domain.Profile.{
  Disclosure, WorkFormat, Strategy, DiscloseMode, CandidateProfile, Period, NormalizedJob, Resume,
}

abbrev pub sample_resume : Resume
sample_resume = record {
  resume_id = "resume-1";
  filename = "cv.pdf";
  language = "en";
  target_stack = "node" ∷ [];
  target_seniority = "senior" ∷ [];
  allowed_providers = "hh" ∷ [];
  object_storage_key = "cv/1";
  version = "1";
  active = true;
  checksum = "c";
}

abbrev pub sample_profile : CandidateProfile
sample_profile = record {
  id = "profile-1";
  user_id = "user-1";
  display_name = "Candidate";
  active = true;
  target_titles = "backend developer" ∷ [];
  primary_stack = "node" ∷ [];
  secondary_stack = [];
  years_of_experience = 7;
  seniority_targets = "senior" ∷ [];
  languages = record { communication_default = "en"; allowed = "en" ∷ [] };
  geography = record {
    current_location = "Vienna";
    allowed_work_formats = WorkFormat.remote ∷ [];
    relocation_allowed = false;
  };
  compensation = record {
    min_monthly_eur = 4000;
    target_monthly_eur = 5000;
    disclose_mode = DiscloseMode.range_only;
  };
  employment_types = "full_time" ∷ [];
  resumes = sample_resume ∷ [];
  facts =
      (
        "current_location",
        record { value = Json.null; disclosure = Disclosure.allowed; categories = [] },
      )
      ∷ [];
  blacklisted_companies = [];
  blacklisted_keywords = [];
  whitelisted_companies = [];
  default_strategy = Strategy.balanced;
  allowed_strategies = Strategy.balanced ∷ [];
  availability = record {
    timezone = "Europe/Vienna";
    default_windows = ("monday", "10:00-17:00" ∷ []) ∷ [];
    buffer_minutes_before = 15;
    buffer_minutes_after = 15;
    max_interviews_per_day = 2;
    min_notice_hours = 24;
  };
  user_consent = record { auto_apply = true; auto_reply = true; interview_scheduling = true };
  rate_limits = record {
    applications_per_day = 10;
    applications_per_hour = 3;
    max_per_company_per_day = 1;
    max_per_company_per_week = 2;
  };
}

abbrev pub sample_job : NormalizedJob
sample_job = record {
  id = "job-1";
  source_provider = "hh";
  external_id = "1001";
  canonical_url = none;
  title = "backend developer";
  company_name = some "Acme";
  location = none;
  work_format = WorkFormat.remote;
  compensation_min = none;
  compensation_max = some 6000;
  compensation_currency = some "EUR";
  compensation_period = Period.month;
  seniority = none;
  description = "node";
  requirements = [];
  language = "en";
  publication_date = none;
  availability_status = none;
  already_applied = none;
  quality_signals = none;
  extraction_confidence = 95;
}
