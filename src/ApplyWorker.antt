-- ===== src/ApplyWorker.antt =====
-- apps/worker-apply/src/runner.ts: what the worker that submits approved applications checks before
-- it calls the provider (`validateApprovedSubmitPayload`, `evaluateSubmitProof`,
-- `hasFreshPassedCanary`, `denyPolicy`). Times are milliseconds; `parse_time` reads a date.
pub mod Approved
pub mod Proof
pub mod Canary
pub mod Guard
pub mod Provider
pub mod Writes
pub mod Draft
pub mod Process
pub mod Tests
use telegram_job_search_auto.Common.{
  ℕ, ◌+◌, ◌*◌, ◌++◌, String, Bool, true, false, not, ◌&&◌, ◌||◌, Option, none, some, List, [], ◌∷◌,
  ◌==◌, if◌then◌else◌, is_empty, is_some, any, includes, truthy, truthy?, same_text?, leb, concat,
  Dict, lookup,
}
use telegram_job_search_auto.Records.{ApplicationRecord}
use telegram_job_search_auto.Domain.Types.{ErrorCode, error_text, Action, PolicyDecision, deny}
use telegram_job_search_auto.Domain.Proof.{ProofPack}
use telegram_job_search_auto.Domain.Policy.{PolicyOutput, PolicyCheck, CheckResult, Severity}
use telegram_job_search_auto.Domain.Submit.{DryRunState, not_run, failed, submit_boundary_reached}
use telegram_job_search_auto.Approvals.{
  ApprovalRequest, ApprovalStatus, pending, approved, rejected, expired, superseded, is_approved,
  is_past,
}

pub record CanaryRunRecord : Type 0 where
  pub id : String
  pub provider_id : String
  pub status : String
  pub checks : List String
  pub failures : List String
  pub created_at : String

abbrev pub approval_status_text : ApprovalStatus → String
approval_status_text pending = "pending"
approval_status_text approved = "approved"
approval_status_text rejected = "rejected"
approval_status_text expired = "expired"
approval_status_text superseded = "superseded"

-- `{ valid: true } | { valid: false, reason }`
pub data Validation : Type 0 where
  valid : Validation
  invalid : (reason : String) → Validation

pub record SubmitProof : Type 0 where
  pub ready : Bool
  pub dry_run_state : DryRunState
  pub reasons : List String

abbrev pub max_age_ms : ℕ
max_age_ms = 24 * 60 * 60 * 1000

-- `reasons.push(reason)` under a condition.
abbrev when : Bool → String → List String
when true reason = reason ∷ []
when false reason = []

error_reasons : Option ErrorCode → List String
error_reasons none = []
error_reasons (some e) = concat ("proof_error:" ∷ error_text e ∷ []) ∷ []

unfoldable pub proof_reasons : ApplicationRecord → ProofPack → List String
unfolding error_reasons
proof_reasons application proof =
    when (not (proof.provider == application.provider_id)) "proof_provider_mismatch"
    ++ (when (not (proof.entity_id == application.job_id)) "proof_entity_mismatch"
        ++ (when
              (not (
                includes proof.final_status
                  ("dry_run_passed" ∷ "submit_boundary_reached" ∷ "succeeded" ∷ [])))
              "proof_final_status_not_submit_boundary"
            ++ (error_reasons proof.error_code
                ++ (when (not (truthy? proof.completed_at)) "proof_completion_missing"
                    ++ when
                        (not (truthy? proof.pre_action_screenshot_key)
                          || not (truthy? proof.dom_snapshot_before_key))
                        "proof_artifact_missing"))))

-- `evaluateSubmitProof`
unfoldable pub evaluate_submit_proof : ApplicationRecord → Option ProofPack → SubmitProof
unfolding proof_reasons
evaluate_submit_proof application none = record {
  ready = false;
  dry_run_state = not_run;
  reasons = "proof_pack_missing" ∷ [];
}
evaluate_submit_proof application (some proof) =
    let reasons = proof_reasons application proof in
    record {
      ready = is_empty reasons;
      dry_run_state = if is_empty reasons then submit_boundary_reached else failed;
      reasons = reasons;
    }

-- `denyPolicy`
unfoldable pub deny_policy : Action → String → PolicyOutput
deny_policy action reason = record {
  decision = deny;
  action = action;
  policy_version = "submit-worker-v1";
  checks =
      (record {
        name = "submit_worker_precondition";
        result = CheckResult.failed;
        severity = Severity.hard_deny;
        reason = some reason;
      })
      ∷ [];
  requires_user_approval = false;
  reasons = reason ∷ [];
}

abbrev pub is_fresh : Option ℕ → ℕ → Bool
is_fresh none now = false
is_fresh (some t) now = leb now (t + max_age_ms)

module _ (parse_time : String → Option ℕ) where
  -- `hasFreshPassedCanary`
  unfoldable pub has_fresh_passed_canary : List CanaryRunRecord → String → ℕ → Bool
  has_fresh_passed_canary runs provider_id now =
      any
        (λ (r : CanaryRunRecord).
          (r.provider_id == provider_id)
          && (r.status == "passed")
          && is_fresh (parse_time r.created_at) now)
        runs

  -- The checks on the approval request itself.
  request_validation : Option ApprovalRequest → ApplicationRecord → String → ℕ → Validation
  request_validation none application draft_hash now = invalid "approval_request_missing"
  request_validation (some r) application draft_hash now =
      if not (r.entity_type == "application")
        || not (r.entity_id == application.id)
        || not (r.requested_action == "send_application")
      then invalid "approval_request_entity_mismatch"
      else if not (is_approved r.status)
      then invalid (concat ("approval_status_" ∷ approval_status_text r.status ∷ []))
      else if is_past (parse_time r.expires_at) now
      then invalid "approval_expired"
      else if not (same_text? r.draft_hash draft_hash)
      then invalid "approval_request_draft_hash_mismatch"
      else valid

  payload_validation :
      Dict ApprovalRequest
      → ApplicationRecord
      → Option String
      → Option String
      → Option String
      → ℕ
      → Validation
  unfolding request_validation
  payload_validation requests application (some draft_hash) (some request_id) (some approved_hash)
        now =
      if not (truthy draft_hash)
      then invalid "application_draft_hash_missing"
      else if not (truthy request_id) || not (truthy approved_hash)
      then invalid "approval_payload_missing"
      else if not (approved_hash == draft_hash)
      then invalid "approval_payload_draft_hash_mismatch"
      else request_validation (lookup request_id requests) application draft_hash now
  payload_validation requests application draft_hash request_id approved_hash now =
      if not (truthy? draft_hash)
      then invalid "application_draft_hash_missing"
      else invalid "approval_payload_missing"

  -- `validateApprovedSubmitPayload`
  unfoldable pub validate_approved_submit_payload :
      Dict ApprovalRequest → ApplicationRecord → Option String → Option String → ℕ → Validation
  unfolding payload_validation
  validate_approved_submit_payload requests application request_id approved_hash now =
      payload_validation requests application application.draft_variant_key request_id approved_hash
        now
