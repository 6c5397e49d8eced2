-- ===== src/Limits/Rules.antt =====
-- packages/db/src/rate-limits.ts: `evaluateApplicationRateLimits` and `evaluateReplyRateLimits`.
use telegram_job_search_auto.Common.{
  ℕ, String, Bool, not, ◌&&◌, Option, none, some, List, [], ◌∷◌, ◌==◌, if◌then◌else◌, keep, is_some,
  truthy, or_else, concat, includes, map, lookup, same_text?,
}
use telegram_job_search_auto.Domain.Profile.{CandidateProfile, NormalizedJob}
use telegram_job_search_auto.Domain.Text.{normalize_limit_key}
use telegram_job_search_auto.Domain.Submit.{Timestamp}
use telegram_job_search_auto.Limits.{
  ApplicationLimitRecord, ConversationLimitRecord, OutboundLimitRecord, RateLimitCheck,
  RateLimitAssessment, hour_ms, day_ms, week_ms, prepared_application_statuses,
  irreversible_application_statuses, counted_outbound_statuses, application_timestamp,
  build_window_check, summarize_checks, by_id, company_role_key, company_of, is_clone,
}

pub record ApplicationLimitInput : Type 0 where
  pub profile : CandidateProfile
  pub applications : List ApplicationLimitRecord
  pub jobs : List NormalizedJob
  pub job : NormalizedJob
  pub provider_id : Option String
  pub include_prepared : Bool
  pub exclude_application_id : Option String

pub record ReplyLimitInput : Type 0 where
  pub profile : CandidateProfile
  pub conversations : List ConversationLimitRecord
  pub outbound_messages : List OutboundLimitRecord
  pub conversation_id : String
  pub exclude_outbound_message_id : Option String

abbrev name_or_unknown : String → String
name_or_unknown company = if truthy company then company else "unknown"

-- The applications that count: not the excluded one, in a counted status, with a readable time.
unfoldable pub counted_applications : ApplicationLimitInput → List ApplicationLimitRecord
counted_applications input =
    let statuses =
      if input.include_prepared
      then prepared_application_statuses
      else irreversible_application_statuses in
    keep
      (λ (a : ApplicationLimitRecord).
        not (same_text? input.exclude_application_id a.id)
        && includes a.status statuses
        && is_some (application_timestamp a))
      input.applications

unfoldable pub counted_messages : ReplyLimitInput → List OutboundLimitRecord
counted_messages input =
    keep
      (λ (m : OutboundLimitRecord).
        not (same_text? input.exclude_outbound_message_id m.id)
        && includes m.status counted_outbound_statuses
        && is_some m.created_at)
      input.outbound_messages

abbrev pub times : List ApplicationLimitRecord → List Timestamp
times = map application_timestamp

abbrev pub message_times : List OutboundLimitRecord → List Timestamp
message_times = map (λ (m : OutboundLimitRecord). m.created_at)

module _ (to_lower_case sha256_hex : String → String) where
  unfoldable pub same_company_applications : ApplicationLimitInput → List ApplicationLimitRecord
  same_company_applications input =
      let jobs_by_id = by_id (λ (j : NormalizedJob). j.id) [] input.jobs in
      let target = normalize_limit_key to_lower_case input.job.company_name in
      keep
        (λ (a : ApplicationLimitRecord).
          truthy target
          && company_of to_lower_case sha256_hex (lookup a.job_id jobs_by_id) == target)
        (counted_applications input)

  unfoldable pub same_clone_group_applications : ApplicationLimitInput → List ApplicationLimitRecord
  same_clone_group_applications input =
      let jobs_by_id = by_id (λ (j : NormalizedJob). j.id) [] input.jobs in
      keep
        (λ (a : ApplicationLimitRecord).
          is_clone to_lower_case sha256_hex (lookup a.job_id jobs_by_id)
            (company_role_key to_lower_case sha256_hex input.job))
        (counted_applications input)

  unfoldable pub application_checks : ApplicationLimitInput → ℕ → List RateLimitCheck
  application_checks input now =
      let limits = input.profile.rate_limits in
      let key = λ (s : String). concat ("apply:" ∷ input.profile.user_id ∷ s ∷ []) in
      let company = name_or_unknown (normalize_limit_key to_lower_case input.job.company_name) in
      let clone = company_role_key to_lower_case sha256_hex input.job in
      let provider = or_else input.provider_id input.job.source_provider in
      let all = counted_applications input in
      let mine = keep (λ (a : ApplicationLimitRecord). a.provider_id == provider) all in
      let same_company = same_company_applications input in
      let same_clone = same_clone_group_applications input in
      build_window_check "applications_per_hour" (key ":hour") limits.applications_per_hour
        (times all) hour_ms now
      ∷ build_window_check "applications_per_day" (key ":day") limits.applications_per_day
          (times all) day_ms now
      ∷ build_window_check "provider_applications_per_hour"
          (key (concat (":" ∷ provider ∷ ":hour" ∷ []))) limits.applications_per_hour (times mine)
          hour_ms now
      ∷ build_window_check "company_applications_per_day"
          (key (concat (":company:" ∷ company ∷ ":day" ∷ []))) limits.max_per_company_per_day
          (times same_company) day_ms now
      ∷ build_window_check "company_applications_per_week"
          (key (concat (":company:" ∷ company ∷ ":week" ∷ []))) limits.max_per_company_per_week
          (times same_company) week_ms now
      ∷ build_window_check "clone_group_applications_per_day"
          (key (concat (":clone:" ∷ clone ∷ ":day" ∷ []))) limits.max_per_company_per_day
          (times same_clone) day_ms now
      ∷ build_window_check "clone_group_applications_per_week"
          (key (concat (":clone:" ∷ clone ∷ ":week" ∷ []))) limits.max_per_company_per_week
          (times same_clone) week_ms now
      ∷ []

  unfoldable pub evaluate_application_rate_limits : ApplicationLimitInput → ℕ → RateLimitAssessment
  evaluate_application_rate_limits input now = summarize_checks (application_checks input now)

  -- `normalizeLimitKey(conversation?.companyName)`
  abbrev conversation_company : Option ConversationLimitRecord → String
  conversation_company none = normalize_limit_key to_lower_case none
  conversation_company (some c) = normalize_limit_key to_lower_case c.company_name

module _ (to_lower_case sha256_hex : String → String) where
  unfoldable pub same_company_messages : ReplyLimitInput → List OutboundLimitRecord
  same_company_messages input =
      let conversations_by_id =
        by_id (λ (c : ConversationLimitRecord). c.id) [] input.conversations in
      let target =
        conversation_company to_lower_case sha256_hex
          (lookup input.conversation_id conversations_by_id) in
      keep
        (λ (m : OutboundLimitRecord).
          truthy target
          && conversation_company to_lower_case sha256_hex
              (lookup m.conversation_id conversations_by_id)
            == target)
        (counted_messages input)

  unfoldable pub reply_checks : ReplyLimitInput → ℕ → List RateLimitCheck
  reply_checks input now =
      let limits = input.profile.rate_limits in
      let key = λ (s : String). concat ("reply:" ∷ input.profile.user_id ∷ s ∷ []) in
      let company = name_or_unknown (
        conversation_company to_lower_case sha256_hex (
          lookup input.conversation_id
            (by_id (λ (c : ConversationLimitRecord). c.id) [] input.conversations))) in
      let all = counted_messages input in
      let same_conversation =
        keep (λ (m : OutboundLimitRecord). m.conversation_id == input.conversation_id) all in
      let same_company = same_company_messages input in
      build_window_check "replies_per_hour" (key ":hour") limits.applications_per_hour
        (message_times all) hour_ms now
      ∷ build_window_check "conversation_replies_per_day"
          (key (concat (":conversation:" ∷ input.conversation_id ∷ ":day" ∷ []))) 1
          (message_times same_conversation) day_ms now
      ∷ build_window_check "company_replies_per_day"
          (key (concat (":company:" ∷ company ∷ ":day" ∷ []))) limits.max_per_company_per_day
          (message_times same_company) day_ms now
      ∷ build_window_check "company_replies_per_week"
          (key (concat (":company:" ∷ company ∷ ":week" ∷ []))) limits.max_per_company_per_week
          (message_times same_company) week_ms now
      ∷ []

  unfoldable pub evaluate_reply_rate_limits : ReplyLimitInput → ℕ → RateLimitAssessment
  evaluate_reply_rate_limits input now = summarize_checks (reply_checks input now)
