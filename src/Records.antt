-- ===== src/Records.antt =====
-- packages/db/src/index.ts: the applications, manual reviews, proof packs and provider health of
-- `InMemoryDatabase`, with the audit events that they write. A record that an operation returns is
-- the object that is stored.
pub mod Applications
pub mod Reviews
pub mod Evidence
pub mod Tests
use telegram_job_search_auto.Common.{
  ℕ, ◌+◌, String, Bool, true, false, not, ◌&&◌, Option, none, some, List, [], ◌∷◌, ◌++◌,
  if◌then◌else◌, Dict, lookup, insert, values, find, or_else, concat, ◌==◌,
}
use telegram_job_search_auto.Domain.Json.{Json, null, num, str, obj, Fields, end, field}
use telegram_job_search_auto.Domain.Types.{
  AppMode, mode_text, ProviderStatus, needs_review, ErrorCode, error_text,
}
use telegram_job_search_auto.Domain.Policy.{PolicyOutput}
use telegram_job_search_auto.Domain.Proof.{ProofPack}
use telegram_job_search_auto.Approvals.{Payload, value, held_object, AuditEvent, text_or_null}

pub record ApplicationRecord : Type 0 where
  pub id : String
  pub user_id : Option String
  pub job_id : String
  pub provider_id : String
  pub external_job_id : String
  pub candidate_profile_id : Option String
  pub resume_id : Option String
  pub cover_letter_id : Option String
  pub status : String
  pub idempotency_key : String
  pub dedup_key : String
  pub draft_variant_key : Option String
  pub proof_pack_id : Option String
  pub policy_decision : Option String
  pub policy_version : Option String
  pub submitted_at : Option String
  pub created_at : String

pub data Severity : Type 0 where
  low medium high critical : Severity

pub data ReviewStatus : Type 0 where
  open_item approved rejected resolved ignored expired : ReviewStatus

pub record ManualReviewItem : Type 0 where
  pub id : String
  pub user_id : String
  pub entity_type : String
  pub entity_id : String
  pub reason_code : String
  pub severity : Severity
  pub recommended_action : String
  pub status : ReviewStatus
  pub created_at : String
  pub resolved_at : Option String

pub record ObjectArtifactRecord : Type 0 where
  pub object_key : String
  pub artifact_type : String
  pub entity_id : String
  pub bytes : ℕ
  pub created_at : String

pub record ProviderHealth : Type 0 where
  pub provider_id : String
  pub status : ProviderStatus
  pub checked_at : String
  pub latency_ms : ℕ
  pub message : String

pub record PolicyCheckRecord : Type 0 where
  pub id : String
  pub entity_type : String
  pub entity_id : String
  pub policy_version : String
  pub result : PolicyOutput
  pub created_at : String

pub data EvidenceStatus : Type 0 where
  passed failed : EvidenceStatus

-- The type of an evidence is its text.
pub record ReleaseEvidenceRecord : Type 0 where
  pub evidence_id : String
  pub evidence_type : String
  pub provider_id : Option String
  pub status : EvidenceStatus
  pub observed_at : String
  pub expires_at : Option String
  pub source : String
  pub metadata : Json

-- The part of the database that is used here; `drawn` counts the identifiers taken from
-- `randomUUID`, `user_id` is `candidateProfile.userId`.
pub record Database : Type 0 where
  pub system_mode : AppMode
  pub user_id : String
  pub applications : Dict ApplicationRecord
  pub proof_packs : Dict ProofPack
  pub object_artifacts : Dict ObjectArtifactRecord
  pub provider_health : Dict ProviderHealth
  pub manual_review_items : Dict ManualReviewItem
  pub policy_checks : Dict PolicyCheckRecord
  pub release_evidence : Dict ReleaseEvidenceRecord
  pub audit_events : List AuditEvent
  pub drawn : ℕ

-- What `createApplication` is given.
pub record ApplicationInput : Type 0 where
  pub user_id : Option String
  pub job_id : String
  pub provider_id : String
  pub external_job_id : String
  pub candidate_profile_id : Option String
  pub resume_id : Option String
  pub cover_letter_id : Option String
  pub status : String
  pub idempotency_key : String
  pub dedup_key : String
  pub draft_variant_key : Option String
  pub proof_pack_id : Option String
  pub policy_decision : Option String
  pub policy_version : Option String
  pub submitted_at : Option String

-- What `createManualReview` is given.
pub record ReviewInput : Type 0 where
  pub user_id : String
  pub entity_type : String
  pub entity_id : String
  pub reason_code : String
  pub severity : Severity
  pub recommended_action : String

pub data ReviewResolution : Type 0 where
  approve reject defer_item : ReviewResolution

abbrev pub resolution_text : ReviewResolution → String
resolution_text approve = "approved"
resolution_text reject = "rejected"
resolution_text defer_item = "deferred"

abbrev pub status_text : ReviewStatus → String
status_text open_item = "open"
status_text approved = "approved"
status_text rejected = "rejected"
status_text resolved = "resolved"
status_text ignored = "ignored"
status_text expired = "expired"

abbrev pub is_open : ReviewStatus → Bool
is_open open_item = true
is_open _ = false

-- The item as `resolveManualReview` leaves it; `at` is the time.
abbrev pub resolved_item : ReviewResolution → String → ManualReviewItem → ManualReviewItem
resolved_item approve at item = record item { status = approved; resolved_at = some at }
resolved_item reject at item = record item { status = rejected; resolved_at = some at }
resolved_item defer_item at item = item

abbrev pub has_key : String → ApplicationRecord → Bool
has_key key a = a.idempotency_key == key

-- An open item on the same matter, in `createManualReview`.
abbrev pub is_about : ReviewInput → ManualReviewItem → Bool
is_about input item =
    (item.user_id == input.user_id)
    && (item.entity_type == input.entity_type)
    && (item.entity_id == input.entity_id)
    && (item.reason_code == input.reason_code)
    && is_open item.status

abbrev pub code_or_null : Option ErrorCode → Json
code_or_null none = null
code_or_null (some code) = str (error_text code)

module _ (uuid : ℕ → String) (iso : ℕ → String) where
  -- `createAuditEvent({...})` with the identifier that is drawn first.
  abbrev pub audit_event : String → String → String → String → Payload → ℕ → ℕ → AuditEvent
  audit_event entity_type entity_id event_type actor payload drawn now = record {
    event_id = concat ("audit_" ∷ uuid drawn ∷ []);
    entity_type = entity_type;
    entity_id = entity_id;
    event_type = event_type;
    actor = actor;
    policy_version = none;
    timestamp = iso now;
    payload = payload;
  }

  -- `this.auditEvents.push(createAuditEvent({...}))`
  abbrev pub audit : String → String → String → String → Payload → ℕ → Database → Database
  audit entity_type entity_id event_type actor payload now db = record db {
    audit_events =
        db.audit_events
        ++ (audit_event entity_type entity_id event_type actor payload db.drawn now ∷ []);
    drawn = db.drawn + 1;
  }
