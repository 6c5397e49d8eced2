-- ===== src/ApplyWorker/Provider.antt =====
-- packages/domain/src/types.ts, schemas.ts: what the apply worker uses of a provider module, and the
-- input of its `processApprovedSubmit` (apps/worker-apply/src/runner.ts).
use telegram_job_search_auto.Common.{ℕ, String, Option, List}
use telegram_job_search_auto.Domain.Types.{ErrorCode}
use telegram_job_search_auto.Domain.Proof.{ProofPack}
use telegram_job_search_auto.Records.{ProviderHealth}

pub record ApplicationDraft : Type 0 where
  pub draft_id : String
  pub job_id : String
  pub provider_id : String
  pub external_job_id : String
  pub candidate_profile_id : String
  pub resume_id : String
  pub cover_letter_id : String
  pub cover_letter_text : String
  pub status : String
  pub idempotency_key : String
  pub created_at : String

pub data SubmitStatus : Type 0 where
  submitted blocked failed : SubmitStatus

pub record ApplicationResult : Type 0 where
  pub status : SubmitStatus
  pub provider_confirmation_id : Option String
  pub proof_pack : ProofPack
  pub errors : List ErrorCode

-- What comes of `submitApplication`: its result, or the error with which it rejects; a
-- `QueueWorkerError` carries a code.
pub data SubmitAnswer : Type 0 where
  answered : ApplicationResult → SubmitAnswer
  rejected_with : (code : Option String) (message : String) → SubmitAnswer

-- What the worker uses of a provider module.
pub record Provider : Type 0 where
  pub provider_id : String
  pub health : ProviderHealth
  pub submit_application : ApplicationDraft → SubmitAnswer

pub data DraftAnswer : Type 0 where
  draft_valid : ApplicationDraft → DraftAnswer
  draft_invalid : (reason : String) → DraftAnswer

pub record ProcessInput : Type 0 where
  pub application_id : String
  pub approval_request_id : Option String
  pub approved_draft_hash : Option String
  pub release_evidence_source : Option String
  pub release_evidence_ttl_hours : Option ℕ
