-- ===== src/ApplyWorker/Tests.antt =====
-- The apply worker's checks at concrete inputs.
use telegram_job_search_auto.Common.{
  ℕ, String, true, false, ◌≡◌, refl, ◌↔◌, Option, none, some, [], ◌∷◌, lookup,
}
use telegram_job_search_auto.Domain.Types.{AppMode, ProviderStatus}
use telegram_job_search_auto.Domain.Samples.{sample_profile}
use telegram_job_search_auto.Domain.Policy.{
  shortlisted, new, check, conclude, global_check, action_checks, add_failed, push, common_checks,
}
use telegram_job_search_auto.Domain.Submit.{evaluate_guard}
use telegram_job_search_auto.Approvals.{ApprovalRequest, approved}
use telegram_job_search_auto.Domain.Proof.{ProofPack}
use telegram_job_search_auto.Records.{ApplicationRecord}
use telegram_job_search_auto.ApplyWorker.{
  CanaryRunRecord, valid, invalid, validate_approved_submit_payload, evaluate_submit_proof,
  has_fresh_passed_canary,
}
use telegram_job_search_auto.ApplyWorker.Approved.{
  IsApproved, validate_approved_submit_payload-valid_iff,
}
use telegram_job_search_auto.ApplyWorker.Guard.{
  SubmitContext, submit_policy, submit_guard, CanSubmit, submit_guard-passed_iff,
}

abbrev pub at_900 : String → Option ℕ
at_900 text = some 900

abbrev pub application : ApplicationRecord
application = record {
  id = "app-1";
  user_id = none;
  job_id = "job-1";
  provider_id = "hh";
  external_job_id = "1001";
  candidate_profile_id = none;
  resume_id = some "resume-1";
  cover_letter_id = none;
  status = "application_prepared";
  idempotency_key = "apply:u:hh:1";
  dedup_key = "d";
  draft_variant_key = some "h1";
  proof_pack_id = some "proof-1";
  policy_decision = none;
  policy_version = none;
  submitted_at = none;
  created_at = "some day";
}

abbrev pub request : ApprovalRequest
request = record {
  id = "approval-1";
  user_id = "user-1";
  entity_type = "application";
  entity_id = "app-1";
  requested_action = "send_application";
  status = approved;
  requested_at = "some day";
  resolved_at = some "some day";
  expires_at = "later";
  policy_decision_id = none;
  draft_hash = some "h1";
  manual_review_id = none;
}

abbrev pub proof : ProofPack
proof = record {
  proof_pack_id = "proof-1";
  provider = "hh";
  account_id = "a";
  entity_id = "job-1";
  flow_id = "hh_dry_run";
  flow_version = "1";
  selector_pack_version = "1";
  started_at = "some day";
  completed_at = some "some day";
  pre_action_screenshot_key = some "shot";
  post_action_screenshot_key = none;
  dom_snapshot_before_key = some "dom";
  dom_snapshot_after_key = none;
  confirmation_text = none;
  confirmation_url = none;
  final_status = "submit_boundary_reached";
  error_code = none;
  audit_event_id = none;
}

abbrev pub canary : CanaryRunRecord
canary = record {
  id = "canary-1";
  provider_id = "hh";
  status = "passed";
  checks = [];
  failures = [];
  created_at = "some day";
}

abbrev context : SubmitContext
context = record {
  application = application;
  proof_pack = some proof;
  canary_runs = canary ∷ [];
  score = some shortlisted;
  dedup_decision = some new;
  system_mode = AppMode.full_auto_apply;
  candidate_profile = sample_profile;
  provider_id = "hh";
  provider_status = ProviderStatus.stable;
  rate_limit_allowed = true;
  irreversible_actions_enabled = true;
}

engine : Unit {0}
unfolding check conclude global_check action_checks add_failed push common_checks evaluate_guard
    submit_policy submit_guard evaluate_submit_proof has_fresh_passed_canary
    validate_approved_submit_payload lookup
engine = tt

passes : (submit_guard at_900 context 1000).passed ≡ true
unfolding engine
passes = refl

stale_canary : (submit_guard at_900 context 86400901).passed ≡ false
unfolding engine
stale_canary = refl

approved_payload :
    validate_approved_submit_payload at_900
      (("approval-1", request) ∷ [])
      application
      (some "approval-1")
      (some "h1")
      899
    ≡ valid
unfolding engine
approved_payload = refl

late_payload :
    validate_approved_submit_payload at_900
      (("approval-1", request) ∷ [])
      application
      (some "approval-1")
      (some "h1")
      900
    ≡ invalid "approval_expired"
unfolding engine
late_payload = refl

validate_approved_submit_payload-valid_iff_example :
    (validate_approved_submit_payload at_900
        (("approval-1", request) ∷ [])
        application
        (some "approval-1")
        (some "h1")
        899
      ≡ valid)
    ↔ IsApproved at_900
        (("approval-1", request) ∷ [])
        application
        (some "approval-1")
        (some "h1")
        899
validate_approved_submit_payload-valid_iff_example =
    validate_approved_submit_payload-valid_iff at_900 (("approval-1", request) ∷ []) application
      (some "approval-1") (some "h1") 899

submit_guard-passed_iff_example :
    ((submit_guard at_900 context 1000).passed ≡ true) ↔ CanSubmit at_900 context 1000
submit_guard-passed_iff_example = submit_guard-passed_iff at_900 context 1000
