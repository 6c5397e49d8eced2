-- ===== src/Approvals.antt =====
-- packages/db/src/index.ts: the approval requests of `InMemoryDatabase` (`createApprovalRequest`,
-- `resolveApprovalRequest`, `expireApprovalRequests`) with the audit events that they write
-- (`createAuditEvent` of packages/domain/src/services.ts).
pub mod Machine
pub mod Closed
pub mod Expiry
pub mod Tests
use telegram_job_search_auto.Common.{
  ℕ, ◌+◌, String, Bool, true, false, not, ◌&&◌, Option, none, some, List, [], ◌∷◌, ◌++◌,
  if◌then◌else◌, Dict, lookup, insert, values, find, includes, truthy?, leb, concat, ◌==◌,
  same_text?,
}
use telegram_job_search_auto.Domain.Json.{Json, null, str, obj, Fields, end, field}

pub data ApprovalStatus : Type 0 where
  pending approved rejected expired superseded : ApprovalStatus

pub record ApprovalRequest : Type 0 where
  pub id : String
  pub user_id : String
  pub entity_type : String
  pub entity_id : String
  pub requested_action : String
  pub status : ApprovalStatus
  pub requested_at : String
  pub resolved_at : Option String
  pub expires_at : String
  pub policy_decision_id : Option String
  pub draft_hash : Option String
  pub manual_review_id : Option String

-- The payload of an audit event: a value, or one like `{ request }`, which holds the object itself
-- that is stored under this identifier.
pub data Payload : Type 0 where
  value : Json → Payload
  held_object : (id : String) → Payload

pub record AuditEvent : Type 0 where
  pub event_id : String
  pub entity_type : String
  pub entity_id : String
  pub event_type : String
  pub actor : String
  pub policy_version : Option String
  pub timestamp : String
  pub payload : Payload

-- The part of the database that is used here; `drawn` counts the identifiers taken from
-- `randomUUID`.
pub record Database : Type 0 where
  pub approval_requests : Dict ApprovalRequest
  pub audit_events : List AuditEvent
  pub drawn : ℕ

abbrev pub irreversible_approval_actions : List String
irreversible_approval_actions =
    "send_application" ∷ "send_recruiter_reply" ∷ "confirm_interview_slot" ∷ []

abbrev pub is_pending : ApprovalStatus → Bool
is_pending pending = true
is_pending _ = false

abbrev pub is_approved : ApprovalStatus → Bool
is_approved approved = true
is_approved _ = false

-- What `createApprovalRequest` is given.
pub record Draft : Type 0 where
  pub user_id : String
  pub entity_type : String
  pub entity_id : String
  pub requested_action : String
  pub expires_at : String
  pub policy_decision_id : Option String
  pub draft_hash : Option String
  pub manual_review_id : Option String

pub data Resolution : Type 0 where
  approve reject : Resolution

abbrev pub resolution_text : Resolution → String
resolution_text approve = "approved"
resolution_text reject = "rejected"

abbrev pub resolution_status : Resolution → ApprovalStatus
resolution_status approve = approved
resolution_status reject = rejected

abbrev is_approve : Resolution → Bool
is_approve approve = true
is_approve reject = false

pub record ResolveInput : Type 0 where
  pub id : String
  pub resolution : Resolution
  pub actor : String
  pub draft_hash : Option String
  pub reason : Option String

-- `left === right` for texts that may be null.
abbrev pub same_hash : Option String → Option String → Bool
same_hash none none = true
same_hash (some a) b = same_text? b a
same_hash none (some b) = false

abbrev pub text_or_null : Option String → Json
text_or_null none = null
text_or_null (some s) = str s

-- The pending request for the same draft, in `createApprovalRequest`.
abbrev pub repeats : Draft → ApprovalRequest → Bool
repeats d r =
    (r.user_id == d.user_id)
    && (r.entity_type == d.entity_type)
    && (r.entity_id == d.entity_id)
    && (r.requested_action == d.requested_action)
    && same_hash r.draft_hash d.draft_hash
    && is_pending r.status

-- `new Date(text).getTime() <= now`, which an unparseable text does not satisfy.
abbrev pub is_past : Option ℕ → ℕ → Bool
is_past none now = false
is_past (some t) now = leb t now

abbrev pub put : ApprovalRequest → Database → Database
put r db = record db { approval_requests = insert r.id r db.approval_requests }

abbrev pub misses_hash : ApprovalRequest → ResolveInput → Bool
misses_hash r input =
    is_approve input.resolution
    && includes r.requested_action irreversible_approval_actions
    && not (truthy? r.draft_hash)

abbrev pub differs_hash : ApprovalRequest → ResolveInput → Bool
differs_hash r input = truthy? r.draft_hash && not (same_hash r.draft_hash input.draft_hash)

-- `request.status === "pending" && new Date(request.expiresAt).getTime() <= now.getTime()`
abbrev pub is_overdue : (String → Option ℕ) → ℕ → ApprovalRequest → Bool
is_overdue parse_time now r = is_pending r.status && is_past (parse_time r.expires_at) now

-- What a change of the status writes; `at` is `now.toISOString()`.
abbrev pub resolved_to : ApprovalStatus → String → ApprovalRequest → ApprovalRequest
resolved_to status at r = record r { status = status; resolved_at = some at }

-- `clock` is the text of the machine's clock when that many identifiers have been drawn; `now` is the
-- time that a call is given.
module _ (uuid clock : ℕ → String) (iso : ℕ → String) (parse_time : String → Option ℕ) where
  -- `this.auditEvents.push(createAuditEvent({...}))`, with the time that the machine's clock shows.
  unfoldable pub audit : String → String → String → Payload → ℕ → Database → Database
  audit entity_id event_type actor payload now db = record db {
    audit_events =
        db.audit_events
        ++ (record {
          event_id = concat ("audit_" ∷ uuid db.drawn ∷ []);
          entity_type = "approval_request";
          entity_id = entity_id;
          event_type = event_type;
          actor = actor;
          policy_version = none;
          timestamp = clock db.drawn;
          payload = payload;
        }
            ∷ []);
    drawn = db.drawn + 1;
  }

  create_over : Option ApprovalRequest → Draft → ℕ → Database → Database × ApprovalRequest
  unfolding audit
  create_over (some existing) d now db = (db, existing)
  create_over none d now db =
      let request : ApprovalRequest = record {
        id = uuid db.drawn;
        user_id = d.user_id;
        entity_type = d.entity_type;
        entity_id = d.entity_id;
        requested_action = d.requested_action;
        status = pending;
        requested_at = iso now;
        resolved_at = none;
        expires_at = d.expires_at;
        policy_decision_id = d.policy_decision_id;
        draft_hash = d.draft_hash;
        manual_review_id = d.manual_review_id;
      } in
      (
        audit request.id "approval_request_created" "manual-review" (held_object request.id) now
            (put request (record db { drawn = db.drawn + 1 })),
        request,
      )

  -- `createApprovalRequest`
  unfoldable pub create_request : Draft → ℕ → Database → Database × ApprovalRequest
  unfolding create_over
  create_request d now db = create_over (find (repeats d) (values db.approval_requests)) d now db

  -- The request with another status, and the event that says so.
  close :
      ApprovalStatus
      → String
      → Json
      → ApprovalRequest
      → ResolveInput
      → ℕ
      → Database
      → Database × Option ApprovalRequest
  unfolding audit
  close status event payload r input now db =
      let changed = resolved_to status (iso now) r in
      (
        audit r.id event input.actor (value payload) now
            (record db { approval_requests = insert input.id changed db.approval_requests }),
        some changed,
      )

  refuse :
      String
      → Json
      → ApprovalRequest
      → ResolveInput
      → ℕ
      → Database
      → Database × Option ApprovalRequest
  unfolding audit
  refuse event payload r input now db = (audit r.id event input.actor (value payload) now db, none)

  resolve_over :
      Option ApprovalRequest → ResolveInput → ℕ → Database → Database × Option ApprovalRequest
  unfolding close refuse
  resolve_over none input now db = (db, none)
  resolve_over (some r) input now db =
      if misses_hash r input
      then refuse "approval_request_draft_hash_missing"
          (obj (field "requestedAction" (str r.requested_action) end)) r input now db
      else if differs_hash r input
      then refuse "approval_request_draft_hash_mismatch"
          (obj (
            field "expectedHash" (text_or_null r.draft_hash)
              (field "receivedHash" (text_or_null input.draft_hash) end)))
          r input now db
      else if is_approved r.status && is_past (parse_time r.expires_at) now
      then close expired "approval_request_expired"
          (obj (
            field "expiresAt" (str r.expires_at) (
              field "reason" (text_or_null input.reason)
                (field "previousStatus" (str "approved") end))))
          r input now db
      else if not (is_pending r.status)
      then (db, some r)
      else if is_past (parse_time r.expires_at) now
      then close expired "approval_request_expired"
          (obj
            (field "expiresAt" (str r.expires_at) (field "reason" (text_or_null input.reason) end)))
          r input now db
      else close (resolution_status input.resolution)
          (concat ("approval_request_" ∷ resolution_text input.resolution ∷ []))
          (obj (
            field "requestedAction" (str r.requested_action)
              (field "reason" (text_or_null input.reason) end)))
          r input now db

  -- `resolveApprovalRequest`
  unfoldable pub resolve_request : ResolveInput → ℕ → Database → Database × Option ApprovalRequest
  unfolding resolve_over
  resolve_request input now db = resolve_over (lookup input.id db.approval_requests) input now db

  -- The requests from here on, as the loop of `expireApprovalRequests` leaves them, and the expired.
  unfoldable pub expire_all : ℕ → Dict ApprovalRequest → Dict ApprovalRequest × List ApprovalRequest
  expire_all now [] = ([], [])
  expire_all now ((id, r) ∷ rest) =
      let (kept, gone) = expire_all now rest in
      let changed = resolved_to expired (iso now) r in
      if is_overdue parse_time now r
      then ((id, changed) ∷ kept, changed ∷ gone)
      else ((id, r) ∷ kept, gone)

  unfoldable pub audit_expired : List ApprovalRequest → ℕ → Database → Database
  unfolding audit
  audit_expired [] now db = db
  audit_expired (r ∷ rs) now db = audit_expired rs now (
      audit r.id "approval_request_expired" "system"
        (value (obj (field "expiresAt" (str r.expires_at) end))) now db)

  -- `expireApprovalRequests`
  unfoldable pub expire_requests : ℕ → Database → Database × List ApprovalRequest
  unfolding expire_all audit_expired
  expire_requests now db =
      let (kept, gone) = expire_all now db.approval_requests in
      (audit_expired gone now (record db { approval_requests = kept }), gone)
