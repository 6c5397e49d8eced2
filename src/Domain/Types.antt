-- ===== src/Domain/Types.antt =====
-- packages/domain/src/types.ts: the enumerations, and the text that each of their members is.
use telegram_job_search_auto.Common.{String}

pub data AppMode : Type 0 where
  read_only dry_run_apply review_first controlled_auto_apply full_auto_apply : AppMode
  conversation_only paused : AppMode

abbrev pub mode_text : AppMode → String
mode_text AppMode.read_only = "read_only"
mode_text dry_run_apply = "dry_run_apply"
mode_text review_first = "review_first"
mode_text controlled_auto_apply = "controlled_auto_apply"
mode_text full_auto_apply = "full_auto_apply"
mode_text conversation_only = "conversation_only"
mode_text paused = "paused"

pub data ProviderStatus : Type 0 where
  stable degraded read_only apply_disabled blocked needs_review deprecated : ProviderStatus

abbrev pub provider_status_text : ProviderStatus → String
provider_status_text stable = "stable"
provider_status_text degraded = "degraded"
provider_status_text ProviderStatus.read_only = "read_only"
provider_status_text apply_disabled = "apply_disabled"
provider_status_text blocked = "blocked"
provider_status_text needs_review = "needs_review"
provider_status_text deprecated = "deprecated"

pub data PolicyDecision : Type 0 where
  allow deny requires_user_approval requires_ops_review defer : PolicyDecision

abbrev pub decision_text : PolicyDecision → String
decision_text allow = "allow"
decision_text deny = "deny"
decision_text requires_user_approval = "requires_user_approval"
decision_text requires_ops_review = "requires_ops_review"
decision_text defer = "defer"

-- The browser error codes, `ErrorCode` in the source.
pub data ErrorCode : Type 0 where
  page_fingerprint_mismatch selector_missing selector_ambiguous unexpected_modal : ErrorCode
  navigation_timeout form_schema_changed confirmation_missing page_locale_changed : ErrorCode
  javascript_error_detected network_error session_expired login_required auth_expired : ErrorCode
  account_locked provider_rate_limited provider_unavailable provider_terms_block : ErrorCode
  captcha_required anti_automation_detected job_already_applied job_closed : ErrorCode
  job_not_matching_policy resume_not_available cover_letter_policy_failed : ErrorCode
  salary_policy_conflict location_policy_conflict facts_matrix_violation : ErrorCode
  duplicate_company_thread_detected : ErrorCode

abbrev pub error_text : ErrorCode → String
error_text page_fingerprint_mismatch = "page_fingerprint_mismatch"
error_text selector_missing = "selector_missing"
error_text selector_ambiguous = "selector_ambiguous"
error_text unexpected_modal = "unexpected_modal"
error_text navigation_timeout = "navigation_timeout"
error_text form_schema_changed = "form_schema_changed"
error_text confirmation_missing = "confirmation_missing"
error_text page_locale_changed = "page_locale_changed"
error_text javascript_error_detected = "javascript_error_detected"
error_text network_error = "network_error"
error_text session_expired = "session_expired"
error_text login_required = "login_required"
error_text auth_expired = "auth_expired"
error_text account_locked = "account_locked"
error_text provider_rate_limited = "provider_rate_limited"
error_text provider_unavailable = "provider_unavailable"
error_text provider_terms_block = "provider_terms_block"
error_text captcha_required = "captcha_required"
error_text anti_automation_detected = "anti_automation_detected"
error_text job_already_applied = "job_already_applied"
error_text job_closed = "job_closed"
error_text job_not_matching_policy = "job_not_matching_policy"
error_text resume_not_available = "resume_not_available"
error_text cover_letter_policy_failed = "cover_letter_policy_failed"
error_text salary_policy_conflict = "salary_policy_conflict"
error_text location_policy_conflict = "location_policy_conflict"
error_text facts_matrix_violation = "facts_matrix_violation"
error_text duplicate_company_thread_detected = "duplicate_company_thread_detected"

pub data MessageCategory : Type 0 where
  auto_reply acknowledgment recruiter_outreach clarifying_question : MessageCategory
  request_for_details request_for_salary_expectation request_for_location : MessageCategory
  request_for_notice_period test_assignment rejection interview_invitation : MessageCategory
  scheduling_request spam_irrelevant unknown : MessageCategory

pub data Action : Type 0 where
  send_application send_recruiter_reply confirm_interview_slot : Action

abbrev pub action_text : Action → String
action_text send_application = "send_application"
action_text send_recruiter_reply = "send_recruiter_reply"
action_text confirm_interview_slot = "confirm_interview_slot"
