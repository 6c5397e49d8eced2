-- ===== src/Domain/Readiness.antt =====
-- packages/domain/src/services.ts: `ProfileReadinessValidator`.
pub mod Ready
pub mod Tests
use telegram_job_search_auto.Common.{
  String, Bool, true, false, not, ◌&&◌, ◌||◌, List, [], ◌∷◌, ◌++◌, ◌==◌, if◌then◌else◌, is_empty,
  any, keep, ltb, truthy, Dict, values, ℕ,
}
use telegram_job_search_auto.Domain.Types.{
  AppMode, dry_run_apply, review_first, controlled_auto_apply, full_auto_apply, conversation_only,
}
use telegram_job_search_auto.Domain.Profile.{
  CandidateProfile, Resume, Fact, RateLimits, Disclosure, DiscloseMode,
}

pub record ProfileReadinessReport : Type 0 where
  pub profile_id : String
  pub mode : AppMode
  pub ready : Bool
  pub blockers : List String
  pub warnings : List String
  pub missing_fields : List String

-- The three lists that the validator builds up.
pub record Findings : Type 0 where
  pub blockers : List String
  pub warnings : List String
  pub missing_fields : List String

-- `requireField`
unfoldable pub require_field : Bool → String → String → Findings → Findings
require_field condition name message f = if condition then f else record f {
  missing_fields = f.missing_fields ++ (name ∷ []);
  blockers = f.blockers ++ (message ∷ []);
}

unfoldable pub warn : Bool → String → Findings → Findings
warn condition message f =
    if condition then record f { warnings = f.warnings ++ (message ∷ []) } else f

-- `Object.values(profile.rateLimits).every((value) => value > 0)`
abbrev pub limits_positive : RateLimits → Bool
limits_positive r =
    ltb 0 r.applications_per_day
    && ltb 0 r.applications_per_hour
    && ltb 0 r.max_per_company_per_day
    && ltb 0 r.max_per_company_per_week

abbrev pub active_resumes : CandidateProfile → List Resume
active_resumes p = keep (λ (r : Resume). r.active) p.resumes

abbrev pub discloses : Fact → Bool
discloses f = discloses_kind f.disclosure
  where
    discloses_kind : Disclosure → Bool
    discloses_kind Disclosure.allowed = true
    discloses_kind Disclosure.range_only = true
    discloses_kind _ = false

abbrev pub is_apply_mode : AppMode → Bool
is_apply_mode dry_run_apply = true
is_apply_mode review_first = true
is_apply_mode controlled_auto_apply = true
is_apply_mode full_auto_apply = true
is_apply_mode _ = false

abbrev pub is_auto_mode : AppMode → Bool
is_auto_mode controlled_auto_apply = true
is_auto_mode full_auto_apply = true
is_auto_mode _ = false

abbrev pub is_conversation_mode : AppMode → Bool
is_conversation_mode conversation_only = true
is_conversation_mode full_auto_apply = true
is_conversation_mode _ = false

abbrev pub is_full_mode : AppMode → Bool
is_full_mode full_auto_apply = true
is_full_mode _ = false

abbrev pub is_exact : DiscloseMode → Bool
is_exact DiscloseMode.exact = true
is_exact _ = false

abbrev pub has_availability : CandidateProfile → Bool
has_availability p = truthy p.availability.timezone && not (is_empty p.availability.default_windows)

unfoldable pub profile_fields : CandidateProfile → Findings → Findings
unfolding require_field
profile_fields p f =
    require_field (limits_positive p.rate_limits) "rateLimits" "Rate limits must be positive" (
      require_field (not (is_empty p.primary_stack)) "primaryStack" "Primary stack is required" (
        require_field (not (is_empty p.target_titles)) "targetTitles"
          "At least one target title is required"
          (require_field p.active "active" "Profile must be active" f)))

unfoldable pub apply_fields : CandidateProfile → AppMode → Findings → Findings
unfolding require_field
apply_fields p mode f =
    let more =
      require_field (any (λ (r : Resume). not (is_empty r.allowed_providers)) (active_resumes p))
        "resumes.allowedProviders" "Active resume must allow at least one provider"
        (require_field (not (is_empty (active_resumes p))) "resumes.active"
          "Apply-capable modes require an active resume" f) in
    if is_apply_mode mode then more else f

unfoldable pub consent_fields : CandidateProfile → AppMode → Findings → Findings
unfolding require_field
consent_fields p mode f =
    let auto =
      require_field (not (is_auto_mode mode) || p.user_consent.auto_apply) "userConsent.autoApply"
        "Controlled auto-apply requires explicit consent" f in
    let reply =
      require_field (not (is_conversation_mode mode) || p.user_consent.auto_reply)
        "userConsent.autoReply" "Conversation automation requires auto-reply consent" auto in
    let facts =
      require_field (not (is_conversation_mode mode) || any discloses (values p.facts)) "facts"
        "Conversation automation needs at least one disclosable fact" reply in
    require_field (not (is_full_mode mode) || p.user_consent.interview_scheduling)
      "userConsent.interviewScheduling" "Full automation requires scheduling consent" facts

-- `ProfileReadinessValidator.validate`
unfoldable pub validate_profile : CandidateProfile → AppMode → ProfileReadinessReport
unfolding profile_fields apply_fields consent_fields warn require_field
validate_profile p mode =
    let start : Findings = record { blockers = []; warnings = []; missing_fields = [] } in
    let facts = warn (is_empty p.facts) "Fact registry is empty" (profile_fields p start) in
    let consents = consent_fields p mode (apply_fields p mode facts) in
    let exact =
      warn (is_exact p.compensation.disclose_mode) "Exact salary disclosure is enabled" consents in
    let all =
      require_field (has_availability p) "availability"
        "Availability timezone and windows are required for scheduling" exact in
    record {
      profile_id = p.id;
      mode = mode;
      ready = is_empty all.blockers;
      blockers = all.blockers;
      warnings = all.warnings;
      missing_fields = all.missing_fields;
    }
