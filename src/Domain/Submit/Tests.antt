-- ===== src/Domain/Submit/Tests.antt =====
-- The gates and the ramp at concrete inputs.
use telegram_job_search_auto.Common.{
  ℕ, String, true, false, ◌≡◌, refl, ◌↔◌, ◌⊎◌, ◌≤◌, min, none, some, [], ◌∷◌,
}
use telegram_job_search_auto.Domain.Types.{ProviderStatus, Action, AppMode}
use telegram_job_search_auto.Domain.Samples.{sample_profile}
use telegram_job_search_auto.Domain.Policy.{
  PolicyInput, shortlisted, new, check, conclude, global_check, action_checks, add_failed, push,
  common_checks,
}
use telegram_job_search_auto.Domain.Policy.Allow.{MayAct}
use telegram_job_search_auto.Domain.Submit.{
  GuardInput, evaluate_guard, GateInput, GateApproval, evaluate_gate, plan, EligibilityInput,
  evaluate_eligibility, RampInput, decide_ramp, submit_boundary_reached,
}
use telegram_job_search_auto.Domain.Submit.Gates.{
  GuardHolds, evaluate_guard-passed_iff, Opens, evaluate_gate-allowed_iff,
}
use telegram_job_search_auto.Domain.Submit.Controlled.{
  IsEligible, evaluate_eligibility-eligible_iff, plan-enqueue,
}
use telegram_job_search_auto.Domain.Submit.Ramp.{IsHealthy, decide_ramp-bounds}

engine : Unit {0}
unfolding check conclude global_check action_checks add_failed push common_checks evaluate_gate plan
    evaluate_guard
engine = tt

abbrev submit : PolicyInput
submit = record {
  action = Action.send_application;
  mode = AppMode.full_auto_apply;
  provider_status = ProviderStatus.stable;
  candidate_profile = sample_profile;
  score = some shortlisted;
  dedup_decision = some new;
  message_classification = none;
  scheduling_decision = none;
  idempotency_key = some "apply:u:hh:1";
  proof_ready = true;
  validation_passed = true;
  irreversible_actions_enabled = true;
  rate_limit_available = true;
}

abbrev same_text : String → String
same_text s = s

abbrev no_digits : ℕ → String
no_digits n = "n"

abbrev guarded : GuardInput
guarded = record {
  refetch_passed = none;
  auth_valid = some true;
  rate_limit_available = some true;
  policy = check "v1" submit;
  dry_run_passed = true;
  dry_run_state = some submit_boundary_reached;
  proof_ready = true;
  idempotency_key = some "apply:u:hh:1";
  recent_canary_passed = true;
  provider_status = ProviderStatus.stable;
}

abbrev approval : GateApproval
approval = record {
  status = "approved";
  draft_hash = some "h1";
  requested_action = "send_application";
  expires_at = some 900;
}

abbrev gate : GateInput
gate = record {
  approval_request = some approval;
  current_draft_hash = "h1";
  policy = check "v1" submit;
  live_submit_enabled = true;
}

guard_passed : (evaluate_guard guarded).passed ≡ true
unfolding engine
guard_passed = refl

gate_open : (evaluate_gate gate 899).allowed ≡ true
unfolding engine
gate_open = refl

gate_expired : (evaluate_gate gate 900).reasons ≡ "approval_expired" ∷ []
unfolding engine
gate_expired = refl

plan_enqueues : (plan same_text "app-1" gate 899).enqueue ≡ true
unfolding engine
plan_enqueues = refl

abbrev candidate : EligibilityInput
candidate = record {
  score_decision = shortlisted;
  score = 90;
  dedup_status = new;
  extraction_confidence = 95;
  risk_flags = [];
  recent_canary_passed = true;
  provider_status = ProviderStatus.stable;
  daily_remaining = 3;
  company_remaining = 1;
  clone_group_remaining = 1;
  ramp_percent = 10;
  entity_key = "0000000a";
}

abbrev ramp : RampInput
ramp = record {
  current_ramp_percent = 40;
  failure_rate = 20;
  duplicate_count = 0;
  canary_passed = true;
}

evaluate_guard-passed_iff_example : ((evaluate_guard guarded).passed ≡ true) ↔ GuardHolds guarded
evaluate_guard-passed_iff_example = evaluate_guard-passed_iff guarded

evaluate_gate-allowed_iff_example : ((evaluate_gate gate 900).allowed ≡ true) ↔ Opens gate 900
evaluate_gate-allowed_iff_example = evaluate_gate-allowed_iff gate 900

plan-enqueue_example :
    MayAct submit × Opens gate 899 × ((plan same_text "app-1" gate 899).reasons ≡ [])
plan-enqueue_example = plan-enqueue same_text "app-1" "v1" submit gate 899 refl plan_enqueues

evaluate_eligibility-eligible_iff_example :
    ((evaluate_eligibility same_text no_digits candidate).eligible ≡ true)
    ↔ IsEligible same_text candidate
evaluate_eligibility-eligible_iff_example =
    evaluate_eligibility-eligible_iff same_text no_digits candidate

decide_ramp-bounds_example :
    (((decide_ramp ramp).rollback ≡ false) ↔ IsHealthy ramp)
    × (((decide_ramp ramp).rollback ≡ false)
          × (5 ≤ (decide_ramp ramp).next_ramp_percent)
          × ((decide_ramp ramp).next_ramp_percent ≤ 100)
          × (min 100 ramp.current_ramp_percent ≤ (decide_ramp ramp).next_ramp_percent)
        ⊎ ((decide_ramp ramp).rollback ≡ true) × ((decide_ramp ramp).next_ramp_percent ≡ 0))
decide_ramp-bounds_example = decide_ramp-bounds ramp
