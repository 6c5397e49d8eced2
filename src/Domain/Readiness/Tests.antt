-- ===== src/Domain/Readiness/Tests.antt =====
-- Profile readiness at concrete inputs.
use telegram_job_search_auto.Common.{true, ◌≡◌, refl, ◌↔◌, [], ◌∷◌}
use telegram_job_search_auto.Domain.Types.{AppMode}
use telegram_job_search_auto.Domain.Profile.{CandidateProfile}
use telegram_job_search_auto.Domain.Samples.{sample_profile}
use telegram_job_search_auto.Domain.Readiness.{
  validate_profile, profile_fields, apply_fields, consent_fields, warn, require_field,
}
use telegram_job_search_auto.Domain.Readiness.Ready.{IsReady, validate_profile-ready_iff}

abbrev no_titles : CandidateProfile
no_titles = record sample_profile { target_titles = [] }

ready : (validate_profile sample_profile AppMode.full_auto_apply).ready ≡ true
unfolding validate_profile profile_fields apply_fields consent_fields warn require_field
ready = refl

blocked :
    (validate_profile no_titles AppMode.read_only).blockers
    ≡ "At least one target title is required" ∷ []
unfolding validate_profile profile_fields apply_fields consent_fields warn require_field
blocked = refl

validate_profile-ready_iff_example :
    ((validate_profile no_titles AppMode.review_first).ready ≡ true)
    ↔ IsReady no_titles AppMode.review_first
validate_profile-ready_iff_example = validate_profile-ready_iff no_titles AppMode.review_first
