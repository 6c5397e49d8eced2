-- ===== src/Records/Reviews.antt =====
-- packages/db/src/index.ts: `createManualReview`, `resolveManualReview`, `updateProviderHealth`,
-- `markProviderNeedsReview`, `recordAuditEvent`, `setMode`.
pub mod Single
pub mod SafeMode
use telegram_job_search_auto.Common.{
  ℕ, ◌+◌, String, Bool, true, false, not, ◌&&◌, Option, none, some, List, [], ◌∷◌, ◌++◌,
  if◌then◌else◌, Dict, lookup, insert, values, find, or_else, concat, ◌==◌,
}
use telegram_job_search_auto.Domain.Json.{Json, null, num, str, obj, Fields, end, field}
use telegram_job_search_auto.Domain.Types.{
  AppMode, mode_text, ProviderStatus, needs_review, ErrorCode, error_text,
}
use telegram_job_search_auto.Domain.Proof.{ProofPack}
use telegram_job_search_auto.Approvals.{Payload, value, held_object, AuditEvent, text_or_null}
use telegram_job_search_auto.Records.{
  ApplicationRecord, Severity, high, ReviewStatus, open_item, approved, rejected, ManualReviewItem,
  ObjectArtifactRecord, ProviderHealth, Database, ApplicationInput, ReviewInput, ReviewResolution,
  approve, reject, defer_item, resolution_text, status_text, resolved_item, has_key, is_about,
  code_or_null, audit_event, audit,
}

abbrev pub new_item : String → String → ReviewInput → ManualReviewItem
new_item id at input = record {
  id = id;
  user_id = input.user_id;
  entity_type = input.entity_type;
  entity_id = input.entity_id;
  reason_code = input.reason_code;
  severity = input.severity;
  recommended_action = input.recommended_action;
  status = open_item;
  created_at = at;
  resolved_at = none;
}

-- `updateProviderHealth`
abbrev pub update_provider_health : ProviderHealth → Database → Database
update_provider_health health db = record db {
  provider_health = insert health.provider_id health db.provider_health;
}

-- The application of a proof pack, where it is there.

-- The health that `markProviderNeedsReview` writes, and the review that it asks for.
abbrev pub safe_mode_health : String → String → Option String → String → ProviderHealth
safe_mode_health provider error_code message at = record {
  provider_id = provider;
  status = needs_review;
  checked_at = at;
  latency_ms = 0;
  message = or_else message (concat ("Provider moved to safe mode after " ∷ error_code ∷ []));
}

abbrev pub safe_mode_review : String → String → String → ReviewInput
safe_mode_review user_id provider error_code = record {
  user_id = user_id;
  entity_type = "provider";
  entity_id = provider;
  reason_code = error_code;
  severity = high;
  recommended_action =
      concat ("Review provider " ∷ provider ∷ " before enabling automation again" ∷ []);
}

module _ (uuid : ℕ → String) (iso : ℕ → String) where
  create_review_over :
      Option ManualReviewItem → ReviewInput → ℕ → Database → Database × ManualReviewItem
  create_review_over (some existing) input now db = (db, existing)
  create_review_over none input now db =
      let item = new_item (uuid db.drawn) (iso now) input in
      (
        audit uuid iso "manual_review_item" item.id "manual_review_created" "policy-engine"
            (held_object item.id) now
            (record db {
              manual_review_items = insert item.id item db.manual_review_items;
              drawn = db.drawn + 1;
            }),
        item,
      )

  -- `createManualReview`
  unfoldable pub create_manual_review : ReviewInput → ℕ → Database → Database × ManualReviewItem
  unfolding create_review_over
  create_manual_review input now db =
      create_review_over (find (is_about input) (values db.manual_review_items)) input now db

  resolve_review_over :
      Option ManualReviewItem
      → String
      → ReviewResolution
      → String
      → Option String
      → ℕ
      → Database
      → Database × Option ManualReviewItem
  resolve_review_over none id resolution actor reason now db = (db, none)
  resolve_review_over (some item) id resolution actor reason now db =
      let changed = resolved_item resolution (iso now) item in
      (
        audit uuid iso "manual_review_item" item.id
            (concat ("manual_review_" ∷ resolution_text resolution ∷ [])) actor
            (value (
              obj (
                field "resolution" (str (resolution_text resolution)) (
                  field "reason" (text_or_null reason)
                    (field "status" (str (status_text changed.status)) end)))))
            now (record db { manual_review_items = insert id changed db.manual_review_items }),
        some changed,
      )

  -- `resolveManualReview`
  unfoldable pub resolve_manual_review :
      String
      → ReviewResolution
      → String
      → Option String
      → ℕ
      → Database
      → Database × Option ManualReviewItem
  unfolding resolve_review_over
  resolve_manual_review id resolution actor reason now db =
      resolve_review_over (lookup id db.manual_review_items) id resolution actor reason now db

  -- `markProviderNeedsReview`; `error_code` is any text.
  unfoldable pub mark_provider_needs_review :
      String → String → String → Option String → ℕ → Database → Database
  unfolding create_manual_review
  mark_provider_needs_review provider error_code entity_id message now db =
      let reviewed =
        (create_manual_review (safe_mode_review db.user_id provider error_code) now
          (update_provider_health (safe_mode_health provider error_code message (iso now)) db)).0 in
      audit uuid iso "provider" provider "provider_safe_mode_enabled" "automation"
        (value
          (obj (field "errorCode" (str error_code) (field "sourceEntityId" (str entity_id) end))))
        now reviewed

  -- `recordAuditEvent`
  abbrev pub record_audit_event : AuditEvent → Database → Database
  record_audit_event event db = record db { audit_events = db.audit_events ++ (event ∷ []) }

  -- `setMode`
  unfoldable pub set_mode : AppMode → String → Option String → ℕ → Database → Database × AppMode
  set_mode next actor reason now db = (
    audit uuid iso "system_mode" "global" "system_mode_changed" actor
        (value (
          obj (
            field "previousMode" (str (mode_text db.system_mode)) (
              field "nextMode" (str (mode_text next)) (field "reason" (text_or_null reason) end)))))
        now (record db { system_mode = next }),
    next,
  )
