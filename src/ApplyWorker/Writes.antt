-- ===== src/ApplyWorker/Writes.antt =====
-- apps/worker-apply/src/runner.ts: what `processApprovedSubmit` writes to the database, with
-- `recordProviderSubmitReleaseEvidence`.
use telegram_job_search_auto.Common.{
  ℕ, ◌+◌, ◌*◌, String, Bool, true, false, not, ◌||◌, Option, none, some, List, [], ◌∷◌,
  if◌then◌else◌, or_else, concat, truthy, leb,
}
use telegram_job_search_auto.Domain.Types.{
  ErrorCode, captcha_required, provider_rate_limited, provider_terms_block,
  anti_automation_detected, error_text,
}
use telegram_job_search_auto.Domain.Json.{str, obj, end, field}
use telegram_job_search_auto.Domain.Keys.{stable_hash}
use telegram_job_search_auto.Approvals.{text_or_null}
use telegram_job_search_auto.Records.{ApplicationRecord, Database, high, EvidenceStatus}
use telegram_job_search_auto.Records.Applications.{set_application_status}
use telegram_job_search_auto.Records.Reviews.{create_manual_review, mark_provider_needs_review}
use telegram_job_search_auto.Records.Evidence.{record_release_evidence}
use telegram_job_search_auto.ApplyWorker.Provider.{
  SubmitStatus, submitted, blocked, failed, ProcessInput,
}

abbrev pub is_incident : ErrorCode → Bool
is_incident captcha_required = true
is_incident provider_rate_limited = true
is_incident provider_terms_block = true
is_incident anti_automation_detected = true
is_incident _ = false

module _ (uuid : ℕ → String) (iso : ℕ → String) where
  abbrev pub set_status : String → String → Option (Option String) → ℕ → Database → Database
  set_status id status submitted_at now db =
      (set_application_status uuid iso id status submitted_at now db).0

  -- The status, and the review that says why.
  abbrev pub hold : String → String → String → String → ℕ → Database → Database
  hold id status reason_code recommended now db =
      (create_manual_review uuid iso
        (record {
          user_id = db.user_id;
          entity_type = "application";
          entity_id = id;
          reason_code = reason_code;
          severity = high;
          recommended_action = recommended;
        })
        now (set_status id status none now db)).0

  -- The loop over the errors of the provider's result.
  unfoldable pub mark_incidents : List ErrorCode → String → String → ℕ → Database → Database
  mark_incidents [] provider_id application_id now db = db
  mark_incidents (code ∷ codes) provider_id application_id now db =
      mark_incidents codes provider_id application_id now (
        if is_incident code
        then mark_provider_needs_review uuid iso provider_id (error_text code) application_id none
            now db
        else db)

module _ (trim sha256_hex : String → String) (uuid : ℕ → String) (iso : ℕ → String)
    (parse_time : String → Option ℕ) where
  -- `recordProviderSubmitReleaseEvidence`
  unfoldable pub record_evidence :
      ApplicationRecord → String → String → Option String → Option ℕ → ℕ → Database → Database
  record_evidence a proof_id submitted_at source ttl_hours now db =
      let named = trim (or_else source "") in
      let hours = or_else ttl_hours 24 in evidence_over (parse_time submitted_at) named hours
    where
      evidence_over : Option ℕ → String → ℕ → Database
      evidence_over none named hours = db
      evidence_over (some at) named hours =
          if not (truthy named) || leb hours 0
          then db
          else (record_release_evidence uuid iso
              (record {
                evidence_id = some (concat ("provider-submit-proof-" ∷ a.provider_id ∷ []));
                evidence_type = "provider_submit_proof_ready";
                provider_id = some a.provider_id;
                status = EvidenceStatus.passed;
                observed_at = some (iso now);
                expires_at = some (iso (at + hours * 60 * 60 * 1000));
                source = named;
                metadata = obj (
                    field "applicationId" (str a.id) (
                      field "proofId" (str proof_id) (
                        field "action" (str "send_application") (
                          field "transport" (str "provider") (
                            field "idempotencyKeyHash"
                              (str (stable_hash sha256_hex a.idempotency_key))
                              (field "draftHash" (text_or_null a.draft_variant_key) (
                                field "submitStatus" (str "submitted")
                                  (field "submittedAt" (str submitted_at) end))))))));
              })
              now db).0

  -- The status after the provider's answer.
  unfoldable pub settle_status :
      SubmitStatus → ApplicationRecord → String → String → ProcessInput → ℕ → Database → Database
  unfolding record_evidence
  settle_status submitted a proof_id submitted_at input now db =
      record_evidence a proof_id submitted_at input.release_evidence_source
        input.release_evidence_ttl_hours now
        (set_status uuid iso a.id "applied" (some (some submitted_at)) now db)
  settle_status blocked a proof_id submitted_at input now db =
      set_status uuid iso a.id "apply_blocked_by_provider" none now db
  settle_status failed a proof_id submitted_at input now db =
      set_status uuid iso a.id "apply_failed" none now db
