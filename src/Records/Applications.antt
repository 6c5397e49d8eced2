-- ===== src/Records/Applications.antt =====
-- packages/db/src/index.ts: `createApplication`, `setApplicationStatus`, `recordProofPack`.
pub mod Unique
use telegram_job_search_auto.Common.{
  ℕ, ◌+◌, String, Bool, true, false, not, ◌&&◌, Option, none, some, List, [], ◌∷◌, ◌++◌,
  if◌then◌else◌, Dict, lookup, insert, values, find, or_else, concat, ◌==◌,
}
use telegram_job_search_auto.Domain.Json.{Json, null, num, str, obj, Fields, end, field}
use telegram_job_search_auto.Domain.Types.{
  AppMode, mode_text, ProviderStatus, needs_review, ErrorCode, error_text,
}
use telegram_job_search_auto.Domain.Proof.{ProofPack}
use telegram_job_search_auto.Approvals.{Payload, value, held_object, AuditEvent, text_or_null}
use telegram_job_search_auto.Records.{
  ApplicationRecord, Severity, high, ReviewStatus, open_item, approved, rejected, ManualReviewItem,
  ObjectArtifactRecord, ProviderHealth, Database, ApplicationInput, ReviewInput, ReviewResolution,
  approve, reject, defer_item, resolution_text, status_text, resolved_item, has_key, is_about,
  code_or_null, audit_event, audit,
}

module _ (uuid : ℕ → String) (iso : ℕ → String) where
  create_application_over :
      Option ApplicationRecord → ApplicationInput → ℕ → Database → Database × ApplicationRecord
  create_application_over (some existing) input now db = (
    audit uuid iso "application" existing.id "application_duplicate_suppressed"
        "application-orchestrator"
        (value (
          obj (
            field "providerId" (str input.provider_id) (
              field "jobId" (str input.job_id) (
                field "dedupKey" (str input.dedup_key)
                  (field "existingStatus" (str existing.status) end))))))
        now db,
    existing,
  )
  create_application_over none input now db =
      let new : ApplicationRecord = record {
        id = uuid db.drawn;
        user_id = input.user_id;
        job_id = input.job_id;
        provider_id = input.provider_id;
        external_job_id = input.external_job_id;
        candidate_profile_id = input.candidate_profile_id;
        resume_id = input.resume_id;
        cover_letter_id = input.cover_letter_id;
        status = input.status;
        idempotency_key = input.idempotency_key;
        dedup_key = input.dedup_key;
        draft_variant_key = input.draft_variant_key;
        proof_pack_id = input.proof_pack_id;
        policy_decision = input.policy_decision;
        policy_version = input.policy_version;
        submitted_at = input.submitted_at;
        created_at = iso now;
      } in
      (
        audit uuid iso "application" new.id "application_record_created" "application-orchestrator"
            (held_object new.id) now
            (record db { applications = insert new.id new db.applications; drawn = db.drawn + 1 }),
        new,
      )

  -- `createApplication`
  unfoldable pub create_application : ApplicationInput → ℕ → Database → Database × ApplicationRecord
  unfolding create_application_over
  create_application input now db =
      create_application_over (find (has_key input.idempotency_key) (values db.applications)) input
        now db

  -- A time that is left out is `none`, one that is null is `some none`.
  set_status_over :
      Option ApplicationRecord
      → String
      → String
      → Option (Option String)
      → ℕ
      → Database
      → Database × Option ApplicationRecord
  set_status_over none id status submitted_at now db = (db, none)
  set_status_over (some a) id status submitted_at now db =
      let changed = record a {
        status = status;
        submitted_at = or_else submitted_at a.submitted_at;
      } in
      (
        audit uuid iso "application" a.id "application_status_updated" "application-runtime"
            (value (
              obj (
                field "status" (str status)
                  (field "submittedAt" (text_or_null (or_else submitted_at none)) end))))
            now (record db { applications = insert id changed db.applications }),
        some changed,
      )

  -- `setApplicationStatus`
  unfoldable pub set_application_status :
      String → String → Option (Option String) → ℕ → Database → Database × Option ApplicationRecord
  unfolding set_status_over
  set_application_status id status submitted_at now db =
      set_status_over (lookup id db.applications) id status submitted_at now db

  unfoldable pub link_proof : Option ApplicationRecord → String → String → Database → Database
  link_proof none id pack db = db
  link_proof (some a) id pack db = record db {
    applications = insert id (record a { proof_pack_id = some pack }) db.applications;
  }

  -- `recordProofPack`
  unfoldable pub record_proof_pack :
      ProofPack → String → String → Option String → ℕ → Database → Database × ProofPack
  unfolding link_proof
  record_proof_pack pack entity_type entity_id actor now db =
      let event =
        audit_event uuid iso entity_type entity_id "proof_pack_recorded"
          (or_else actor "automation")
          (value (
            obj (
              field "proofPackId" (str pack.proof_pack_id) (
                field "finalStatus" (str pack.final_status)
                  (field "errorCode" (code_or_null pack.error_code) end)))))
          db.drawn now in
      let linked = record pack { audit_event_id = some event.event_id } in
      let stored = record db {
        proof_packs = insert pack.proof_pack_id linked db.proof_packs;
        drawn = db.drawn + 1;
      } in
      let told =
        if entity_type == "application"
        then link_proof (lookup entity_id db.applications) entity_id pack.proof_pack_id stored
        else stored in
      (
        record told {
          object_artifacts =
              insert (or_else pack.pre_action_screenshot_key pack.proof_pack_id)
                (record {
                  object_key =
                      or_else pack.pre_action_screenshot_key
                        (concat ("proof/" ∷ pack.proof_pack_id ∷ "/metadata.json" ∷ []));
                  artifact_type = "proof_pack";
                  entity_id = entity_id;
                  bytes = 0;
                  created_at = iso now;
                })
                told.object_artifacts;
          audit_events = told.audit_events ++ (event ∷ []);
        },
        linked,
      )
