-- ===== src/Domain/Profile.antt =====
-- packages/domain/src/schemas.ts: the candidate profile and the normalised job, as parsed.
-- Scores, confidences in percent and salaries are natural numbers.
use telegram_job_search_auto.Common.{ℕ, String, Bool, Option, List, Dict}
use telegram_job_search_auto.Domain.Json.{Json}

pub data Disclosure : Type 0 where
  allowed range_only forbidden_without_user_approval forbidden : Disclosure

pub data WorkFormat : Type 0 where
  remote hybrid office unknown : WorkFormat

pub data Strategy : Type 0 where
  aggressive balanced selective : Strategy

pub data DiscloseMode : Type 0 where
  range_only never exact : DiscloseMode

pub record Resume : Type 0 where
  pub resume_id : String
  pub filename : String
  pub language : String
  pub target_stack : List String
  pub target_seniority : List String
  pub allowed_providers : List String
  pub object_storage_key : String
  pub version : String
  pub active : Bool
  pub checksum : String

pub record Fact : Type 0 where
  pub value : Json
  pub disclosure : Disclosure
  pub categories : List String

pub record Availability : Type 0 where
  pub timezone : String
  pub default_windows : Dict (List String)
  pub buffer_minutes_before : ℕ
  pub buffer_minutes_after : ℕ
  pub max_interviews_per_day : ℕ
  pub min_notice_hours : ℕ

pub record UserConsent : Type 0 where
  pub auto_apply : Bool
  pub auto_reply : Bool
  pub interview_scheduling : Bool

pub record RateLimits : Type 0 where
  pub applications_per_day : ℕ
  pub applications_per_hour : ℕ
  pub max_per_company_per_day : ℕ
  pub max_per_company_per_week : ℕ

pub record Languages : Type 0 where
  pub communication_default : String
  pub allowed : List String

pub record Geography : Type 0 where
  pub current_location : String
  pub allowed_work_formats : List WorkFormat
  pub relocation_allowed : Bool

pub record Compensation : Type 0 where
  pub min_monthly_eur : ℕ
  pub target_monthly_eur : ℕ
  pub disclose_mode : DiscloseMode

pub record CandidateProfile : Type 0 where
  pub id : String
  pub user_id : String
  pub display_name : String
  pub active : Bool
  pub target_titles : List String
  pub primary_stack : List String
  pub secondary_stack : List String
  pub years_of_experience : ℕ
  pub seniority_targets : List String
  pub languages : Languages
  pub geography : Geography
  pub compensation : Compensation
  pub employment_types : List String
  pub resumes : List Resume
  pub facts : Dict Fact
  pub blacklisted_companies : List String
  pub blacklisted_keywords : List String
  pub whitelisted_companies : List String
  pub default_strategy : Strategy
  pub allowed_strategies : List Strategy
  pub availability : Availability
  pub user_consent : UserConsent
  pub rate_limits : RateLimits

pub data Period : Type 0 where
  hour month year unknown : Period

pub data AvailabilityStatus : Type 0 where
  open_vacancy closed unknown : AvailabilityStatus

pub record NormalizedJob : Type 0 where
  pub id : String
  pub source_provider : String
  pub external_id : String
  pub canonical_url : Option String
  pub title : String
  pub company_name : Option String
  pub location : Option String
  pub work_format : WorkFormat
  pub compensation_min : Option ℕ
  pub compensation_max : Option ℕ
  pub compensation_currency : Option String
  pub compensation_period : Period
  pub seniority : Option String
  pub description : String
  pub requirements : List String
  pub language : String
  pub publication_date : Option String
  pub availability_status : Option AvailabilityStatus
  pub already_applied : Option Bool
  pub quality_signals : Option (List String)
  pub extraction_confidence : ℕ
