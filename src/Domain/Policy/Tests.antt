-- ===== src/Domain/Policy/Tests.antt =====
-- Runs of the policy engine, and its theorems at concrete inputs.
use telegram_job_search_auto.Common.{true, ◌≡◌, refl, ◌↔◌, none, some, [], ◌∷◌, any}
use telegram_job_search_auto.Domain.Types.{
  AppMode, ProviderStatus, Action, PolicyDecision, allow, deny,
}
use telegram_job_search_auto.Domain.Samples.{sample_profile}
use telegram_job_search_auto.Domain.Policy.{
  PolicyInput, shortlisted, new, check, is_hard_failed, conclude, global_check, action_checks,
  add_failed, push, common_checks,
}
use telegram_job_search_auto.Domain.Policy.Allow.{MayAct, check-allow_iff}
use telegram_job_search_auto.Domain.Policy.Reasons.{
  failed_reasons, check-deny_reasons, conversation_only-full_auto_apply,
}

engine : Unit {0}
unfolding check conclude global_check action_checks add_failed push common_checks
engine = tt

abbrev submit : PolicyInput
submit = record {
  action = Action.send_application;
  mode = AppMode.full_auto_apply;
  provider_status = ProviderStatus.stable;
  candidate_profile = sample_profile;
  score = some shortlisted;
  dedup_decision = some new;
  message_classification = none;
  scheduling_decision = none;
  idempotency_key = some "apply:u:hh:1";
  proof_ready = true;
  validation_passed = true;
  irreversible_actions_enabled = true;
  rate_limit_available = true;
}

abbrev degraded : PolicyInput
degraded = record submit { provider_status = ProviderStatus.degraded; mode = AppMode.read_only }

submit_allowed : (check "v1" submit).decision ≡ allow
unfolding engine
submit_allowed = refl

review_needed :
    (check "v1" (record submit { mode = AppMode.review_first })).decision
    ≡ PolicyDecision.requires_user_approval
unfolding engine
review_needed = refl

degraded_denied : (check "v1" degraded).decision ≡ deny
unfolding engine
degraded_denied = refl

degraded_reasons :
    (check "v1" degraded).reasons
    ≡ "Provider status blocks write action: degraded" ∷ "Mode read_only does not allow submit" ∷ []
unfolding engine
degraded_reasons = refl

check-allow_iff_example : ((check "v1" submit).decision ≡ allow) ↔ MayAct submit
check-allow_iff_example = check-allow_iff "v1" submit

check-deny_reasons_example :
    (any is_hard_failed (check "v1" degraded).checks ≡ true)
    × ((check "v1" degraded).reasons ≡ failed_reasons (check "v1" degraded).checks)
check-deny_reasons_example = check-deny_reasons "v1" degraded degraded_denied

conversation_only-full_auto_apply_example :
    (check "v1" (record submit { mode = AppMode.conversation_only })).decision
    ≡ (check "v1" (record submit { mode = AppMode.full_auto_apply })).decision
conversation_only-full_auto_apply_example = conversation_only-full_auto_apply "v1" submit
