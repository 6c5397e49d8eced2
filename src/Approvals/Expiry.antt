-- ===== src/Approvals/Expiry.antt =====
-- What one run of `expire_requests` does.
use telegram_job_search_auto.Common.{
  ℕ, ◌++◌, sym, ◌∙◌, map, String, false, Option, List, [], ◌∷◌, ◌≡◌, refl, ap, Dict, values, keep,
  All, Bool-cases, inl, inr,
}
use mathlib.Core.List.{append-nil, append_assoc}
use telegram_job_search_auto.Domain.Json.{str, obj, end, field}
use telegram_job_search_auto.Approvals.Machine.{requests-audit_expired}
use telegram_job_search_auto.Approvals.{
  ApprovalRequest, AuditEvent, Payload, value, expired, Database, is_overdue, resolved_to, audit,
  expire_all, audit_expired, expire_requests,
}

-- What an event is about: what it has besides its id, its time and the version of the policy.
pub record Matter : Type 0 where
  pub entity_type : String
  pub entity_id : String
  pub event_type : String
  pub actor : String
  pub payload : Payload

abbrev pub matter : AuditEvent → Matter
matter e = record {
  entity_type = e.entity_type;
  entity_id = e.entity_id;
  event_type = e.event_type;
  actor = e.actor;
  payload = e.payload;
}

abbrev pub expiry_of : ApprovalRequest → Matter
expiry_of r = record {
  entity_type = "approval_request";
  entity_id = r.id;
  event_type = "approval_request_expired";
  actor = "system";
  payload = value (obj (field "expiresAt" (str r.expires_at) end));
}

module _ (uuid clock : ℕ → String) (iso : ℕ → String) (parse_time : String → Option ℕ) where
  expire_all-rest :
      (now : ℕ) (m : Dict ApprovalRequest)
      → All
          (λ r. is_overdue parse_time now r ≡ false)
          (values (expire_all uuid clock iso parse_time now m).0)
  unfolding expire_all
  expire_all-rest now [] = tt
  expire_all-rest now ((id, r) ∷ m) = elim (Bool-cases (is_overdue parse_time now r)) [
    | inl over ↦ rw over (refl, expire_all-rest now m)
    | inr kept ↦ rw kept (kept, expire_all-rest now m)
  ]

  expire_all-gone :
      (now : ℕ) (m : Dict ApprovalRequest)
      → (expire_all uuid clock iso parse_time now m).1
        ≡ map (resolved_to expired (iso now)) (keep (is_overdue parse_time now) (values m))
  unfolding expire_all
  expire_all-gone now [] = refl
  expire_all-gone now ((id, r) ∷ m) = elim (Bool-cases (is_overdue parse_time now r)) [
    | inl over ↦ rw over (ap (λ rs. resolved_to expired (iso now) r ∷ rs) (expire_all-gone now m))
    | inr kept ↦ rw kept (expire_all-gone now m)
  ]

  -- The events that are added, and what they tell: one after the other of the requests.
  audit_expired-told :
      (rs : List ApprovalRequest) (now : ℕ) (db : Database)
      → (events : List AuditEvent) × ((audit_expired uuid clock iso parse_time rs now
            db).audit_events
          ≡ db.audit_events ++ events)
        × (map matter events ≡ map expiry_of rs)
  unfolding audit_expired audit
  audit_expired-told [] now db = ([], sym (append-nil db.audit_events), refl)
  audit_expired-told (r ∷ rs) now db =
      let (events, added, told) = audit_expired-told rs now (
        audit uuid clock iso parse_time r.id "approval_request_expired" "system"
          (value (obj (field "expiresAt" (str r.expires_at) end))) now db) in
      (_ ∷ events, added ∙ append_assoc db.audit_events _ events, ap (◌∷◌ (expiry_of r)) told)

  -- After `expire_requests` at a time no request is pending and past its expiry at that time; what it
  -- returns are exactly the requests that were, in their order, with the status `expired`; and the
  -- audit events it adds are one for each of these, in their order: an "approval_request_expired" of
  -- that approval request by the system, which tells when the request was to expire.
  pub expire_requests_complete :
      (now : ℕ) (db : Database)
      → let (after, gone) = expire_requests uuid clock iso parse_time now db in
        All (λ r. is_overdue parse_time now r ≡ false) (values after.approval_requests)
        × (gone
            ≡ map
                (resolved_to expired (iso now))
                (keep (is_overdue parse_time now) (values db.approval_requests)))
        × ((events : List AuditEvent) × (after.audit_events ≡ db.audit_events ++ events)
            × (map matter events ≡ map expiry_of gone))
  unfolding expire_requests
  expire_requests_complete now db = (
    rw requests-audit_expired (expire_all-rest now db.approval_requests),
    expire_all-gone now db.approval_requests,
    audit_expired-told _ now _,
  )
