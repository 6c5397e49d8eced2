-- ===== src/Records/Evidence.antt =====
-- packages/db/src/index.ts: `recordPolicyCheck` and `recordReleaseEvidence`.
use telegram_job_search_auto.Common.{
  ℕ, ◌+◌, String, Option, none, some, List, [], ◌∷◌, ◌++◌, insert, or_else, is_some, if◌then◌else◌,
}
use telegram_job_search_auto.Domain.Json.{Json, str, arr, obj, Items, nil, cons, end, field}
use telegram_job_search_auto.Domain.Types.{decision_text}
use telegram_job_search_auto.Domain.Policy.{
  PolicyOutput, PolicyCheck, CheckResult, Severity, hard_deny, approval_required,
}
use telegram_job_search_auto.Approvals.{value, text_or_null}
use telegram_job_search_auto.Records.{
  PolicyCheckRecord, EvidenceStatus, passed, failed, ReleaseEvidenceRecord, Database, audit,
  audit_event,
}

abbrev result_text : CheckResult → String
result_text CheckResult.passed = "passed"
result_text CheckResult.failed = "failed"
result_text CheckResult.warning = "warning"

abbrev severity_text : Severity → String
severity_text hard_deny = "hard_deny"
severity_text approval_required = "approval_required"
severity_text Severity.warning = "warning"

-- A check as a value; a reason that is left out is no field.
abbrev check_value : PolicyCheck → Json
check_value c = obj (
    field "name" (str c.name) (
      field "result" (str (result_text c.result)) (
        field "severity" (str (severity_text c.severity))
          (elim c.reason [ none ↦ end | some reason ↦ field "reason" (str reason) end ]))))

abbrev check_values : List PolicyCheck → Items
check_values [] = nil
check_values (c ∷ cs) = cons (check_value c) (check_values cs)

abbrev texts : List String → Items
texts [] = nil
texts (s ∷ ss) = cons (str s) (texts ss)

abbrev evidence_status_text : EvidenceStatus → String
evidence_status_text passed = "passed"
evidence_status_text failed = "failed"

-- What `recordReleaseEvidence` is given.
pub record EvidenceInput : Type 0 where
  pub evidence_id : Option String
  pub evidence_type : String
  pub provider_id : Option String
  pub status : EvidenceStatus
  pub observed_at : Option String
  pub expires_at : Option String
  pub source : String
  pub metadata : Json

module _ (uuid : ℕ → String) (iso : ℕ → String) where
  -- `recordPolicyCheck`
  unfoldable pub record_policy_check :
      String → String → PolicyOutput → ℕ → Database → Database × PolicyCheckRecord
  record_policy_check entity_type entity_id result now db =
      let new : PolicyCheckRecord = record {
        id = uuid db.drawn;
        entity_type = entity_type;
        entity_id = entity_id;
        policy_version = result.policy_version;
        result = result;
        created_at = iso now;
      } in
      let payload = obj (
        field "decision" (str (decision_text result.decision)) (
          field "reasons" (arr (texts result.reasons))
            (field "checks" (arr (check_values result.checks)) end))) in
      let event =
        audit_event uuid iso entity_type entity_id "policy_check_recorded" "policy-engine"
          (value payload) (db.drawn + 1) now in
      (
        record db {
          policy_checks = insert new.id new db.policy_checks;
          audit_events =
              db.audit_events
              ++ (record event { policy_version = some result.policy_version } ∷ []);
          drawn = db.drawn + 2;
        },
        new,
      )

  -- The evidence that is written; an identifier that is not given is drawn.
  abbrev new_evidence : EvidenceInput → ℕ → ℕ → ReleaseEvidenceRecord
  new_evidence input drawn now = record {
    evidence_id = or_else input.evidence_id (uuid drawn);
    evidence_type = input.evidence_type;
    provider_id = input.provider_id;
    status = input.status;
    observed_at = or_else input.observed_at (iso now);
    expires_at = input.expires_at;
    source = input.source;
    metadata = input.metadata;
  }

  -- `recordReleaseEvidence`
  unfoldable pub record_release_evidence :
      EvidenceInput → ℕ → Database → Database × ReleaseEvidenceRecord
  record_release_evidence input now db =
      let new = new_evidence input db.drawn now in
      (
        audit uuid iso "release_evidence" new.evidence_id "release_evidence_recorded" "api"
            (value (
              obj (
                field "evidenceType" (str new.evidence_type) (
                  field "providerId" (text_or_null new.provider_id) (
                    field "status" (str (evidence_status_text new.status))
                      (field "source" (str new.source) end))))))
            now
            (record db {
              release_evidence = insert new.evidence_id new db.release_evidence;
              drawn = if is_some input.evidence_id then db.drawn else db.drawn + 1;
            }),
        new,
      )
