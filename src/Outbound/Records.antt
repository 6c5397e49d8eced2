-- ===== src/Outbound/Records.antt =====
-- packages/db/src/index.ts: `recordOutboundDispatch` of `InMemoryDatabase`, with
-- `shouldUpdateOutboundDispatch`.
use telegram_job_search_auto.Common.{
  ℕ, ◌+◌, String, Bool, true, false, not, ◌||◌, Option, none, some, List, [], ◌∷◌, ◌++◌,
  if◌then◌else◌, Dict, insert, values, find, ltb, or_else, concat, ◌==◌,
}
use telegram_job_search_auto.Domain.Json.{Json, str, arr, obj, Items, nil, cons, end, field}
use telegram_job_search_auto.Approvals.{AuditEvent, value}
use telegram_job_search_auto.Outbound.{
  OutboundMessage, DispatchStatus, dry_run_recorded, OutboundDispatchProof, OutboundDispatchResult,
}

pub record OutboundMessageRecord : Type 0 where
  pub id : String
  pub provider_id : String
  pub account_id : String
  pub message : OutboundMessage
  pub status : DispatchStatus
  pub proof : OutboundDispatchProof
  pub delivery_id : Option String
  pub errors : List String
  pub created_at : String

-- The part of the database that is used here; `drawn` counts the identifiers taken from
-- `randomUUID`.
pub record Database : Type 0 where
  pub outbound_messages : Dict OutboundMessageRecord
  pub audit_events : List AuditEvent
  pub drawn : ℕ

abbrev pub rank : DispatchStatus → ℕ
rank DispatchStatus.blocked = 0
rank DispatchStatus.queued_for_review = 1
rank dry_run_recorded = 2
rank DispatchStatus.sent = 3

abbrev pub is_withdrawn : DispatchStatus → DispatchStatus → Bool
is_withdrawn DispatchStatus.queued_for_review DispatchStatus.blocked = true
is_withdrawn _ _ = false

-- `shouldUpdateOutboundDispatch`
unfoldable pub should_update : DispatchStatus → DispatchStatus → Bool
should_update current next = ltb (rank current) (rank next) || is_withdrawn current next

abbrev status_text : DispatchStatus → String
status_text DispatchStatus.blocked = "blocked"
status_text DispatchStatus.queued_for_review = "queued_for_review"
status_text dry_run_recorded = "dry_run_recorded"
status_text DispatchStatus.sent = "sent"

abbrev texts : List String → Items
texts [] = nil
texts (s ∷ ss) = cons (str s) (texts ss)

pub record DispatchRecord : Type 0 where
  pub provider_id : String
  pub account_id : String
  pub message : OutboundMessage
  pub result : OutboundDispatchResult
  pub actor : Option String

abbrev pub has_key : String → OutboundMessageRecord → Bool
has_key key r = r.message.idempotency_key == key

abbrev pub updated_by : OutboundDispatchResult → OutboundMessageRecord → OutboundMessageRecord
updated_by result r = record r {
  status = result.status;
  proof = result.proof;
  delivery_id = result.delivery_id;
  errors = result.errors;
}

-- The record object under its key in the map, changed in place: the first that `find` finds.
unfoldable pub change_first :
    (OutboundMessageRecord → Bool)
    → (OutboundMessageRecord → OutboundMessageRecord)
    → Dict OutboundMessageRecord
    → Dict OutboundMessageRecord
change_first test change [] = []
change_first test change ((id, r) ∷ rest) =
    let changed = change_first test change rest in
    if test r then (id, change r) ∷ rest else (id, r) ∷ changed

module _ (uuid : ℕ → String) (iso : ℕ → String) where
  -- `this.auditEvents.push(createAuditEvent({...}))`
  audit : String → String → Option String → Json → ℕ → Database → Database
  audit entity_id event_type actor payload now db = record db {
    audit_events =
        db.audit_events
        ++ (record {
          event_id = concat ("audit_" ∷ uuid db.drawn ∷ []);
          entity_type = "outbound_message";
          entity_id = entity_id;
          event_type = event_type;
          actor = or_else actor "reply-dispatcher";
          policy_version = none;
          timestamp = iso now;
          payload = value payload;
        }
            ∷ []);
    drawn = db.drawn + 1;
  }

  record_over :
      Option OutboundMessageRecord
      → DispatchRecord
      → ℕ
      → Database
      → Database × OutboundMessageRecord
  unfolding audit should_update change_first
  record_over (some existing) input now db =
      if not (existing.proof.text_hash == input.result.proof.text_hash)
      then (
        audit existing.id "outbound_dispatch_idempotency_text_hash_mismatch" input.actor
            (obj (
              field "expectedTextHash" (str existing.proof.text_hash)
                (field "receivedTextHash" (str input.result.proof.text_hash) end)))
            now db,
        existing,
      )
      else if should_update existing.status input.result.status
      then (
        audit existing.id "outbound_dispatch_updated" input.actor
            (obj (
              field "providerId" (str existing.provider_id) (
                field "previousStatus" (str (status_text existing.status)) (
                  field "status" (str (status_text input.result.status)) (
                    field "proofId" (str input.result.proof.proof_id)
                      (field "errors" (arr (texts input.result.errors)) end))))))
            now
            (record db {
              outbound_messages =
                  change_first (has_key input.message.idempotency_key) (updated_by input.result)
                    db.outbound_messages;
            }),
        updated_by input.result existing,
      )
      else (db, existing)
  record_over none input now db =
      let new : OutboundMessageRecord = record {
        id = input.result.proof.outbound_message_id;
        provider_id = input.provider_id;
        account_id = input.account_id;
        message = input.message;
        status = input.result.status;
        proof = input.result.proof;
        delivery_id = input.result.delivery_id;
        errors = input.result.errors;
        created_at = iso now;
      } in
      (
        audit new.id "outbound_dispatch_recorded" input.actor
            (obj (
              field "providerId" (str new.provider_id) (
                field "status" (str (status_text new.status)) (
                  field "proofId" (str new.proof.proof_id) (
                    field "textHash" (str new.proof.text_hash)
                      (field "errors" (arr (texts new.errors)) end))))))
            now (record db { outbound_messages = insert new.id new db.outbound_messages }),
        new,
      )

  -- `recordOutboundDispatch`
  unfoldable pub record_dispatch : DispatchRecord → ℕ → Database → Database × OutboundMessageRecord
  unfolding record_over
  record_dispatch input now db =
      record_over (find (has_key input.message.idempotency_key) (values db.outbound_messages)) input
        now db
