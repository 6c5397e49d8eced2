-- ===== src/ApplyWorker/Approved.antt =====
-- When the worker takes an approval, and a proof, as good.
use telegram_job_search_auto.Common.{
  ℕ, String, true, false, ◌≡◌, refl, ap, ◌↔◌, Option, none, some, eq_iff, arith, truthy, same_text?,
  Dict, lookup,
}
use telegram_job_search_auto.Approvals.{
  ApprovalRequest, ApprovalStatus, approved, is_approved, is_past,
}
use telegram_job_search_auto.Records.{ApplicationRecord}
use telegram_job_search_auto.ApplyWorker.{
  valid, validate_approved_submit_payload, request_validation, payload_validation,
}

-- An approval request that is good for this draft of this application at a time.
pub record Approves (parse_time : String → Option ℕ) (r : ApprovalRequest)
    (application : ApplicationRecord) (draft_hash : String) (now : ℕ) : Type 0 where
  pub for_application : r.entity_type ≡ "application"
  pub same_application : r.entity_id ≡ application.id
  pub for_submit : r.requested_action ≡ "send_application"
  pub granted : r.status ≡ approved
  pub current : is_past (parse_time r.expires_at) now ≡ false
  pub same_hash : r.draft_hash ≡ some draft_hash

-- The payload names the application's draft, and a request in the database that is good for it.
pub record IsApproved (parse_time : String → Option ℕ) (requests : Dict ApprovalRequest)
    (application : ApplicationRecord) (request_id approved_hash : Option String) (now : ℕ)
    : Type 0 where
  pub hash : String
  pub id : String
  pub request : ApprovalRequest
  pub hash_given : truthy hash ≡ true
  pub id_given : truthy id ≡ true
  pub draft : application.draft_variant_key ≡ some hash
  pub named : request_id ≡ some id
  pub agreed : approved_hash ≡ some hash
  pub found : lookup id requests ≡ some request
  pub approves : Approves parse_time request application hash now

status_iff : (s : ApprovalStatus) → (is_approved s ≡ true) ↔ (s ≡ approved)
status_iff s = ground arith

hash_iff : (h : Option String) (d : String) → (same_text? h d ≡ true) ↔ (h ≡ some d)
hash_iff none d = ground arith
hash_iff (some h) d = ground (arith, eq_iff h d)

module _ (parse_time : String → Option ℕ) where
  request_sound :
      (r : ApprovalRequest) (application : ApplicationRecord) (d : String) (now : ℕ)
      → request_validation parse_time (some r) application d now ≡ valid
      → Approves parse_time r application d now
  unfolding request_validation
  request_sound r application d now h = record {
    for_application = ground (arith, eq_iff r.entity_type "application");
    same_application = ground (arith, eq_iff r.entity_id application.id);
    for_submit = ground (arith, eq_iff r.requested_action "send_application");
    granted = ground (arith, status_iff r.status);
    current = ground arith;
    same_hash = ground (arith, hash_iff r.draft_hash d);
  }

  request_complete :
      (r : ApprovalRequest) (application : ApplicationRecord) (d : String) (now : ℕ)
      → Approves parse_time r application d now
      → request_validation parse_time (some r) application d now ≡ valid
  unfolding request_validation
  request_complete r application d now h = ground (
    arith,
    (eq_iff r.entity_type "application").1 h.for_application,
    (eq_iff r.entity_id application.id).1 h.same_application,
    (eq_iff r.requested_action "send_application").1 h.for_submit,
    (status_iff r.status).1 h.granted,
    h.current,
    (hash_iff r.draft_hash d).1 h.same_hash,
  )

  found_request :
      (o : Option ApprovalRequest) (application : ApplicationRecord) (d : String) (now : ℕ)
      → request_validation parse_time o application d now ≡ valid
      → (r : ApprovalRequest) × (o ≡ some r) × Approves parse_time r application d now
  unfolding request_validation
  found_request none application d now h = ground arith
  found_request (some r) application d now h = (r, refl, request_sound r application d now h)

  payload_sound :
      (requests : Dict ApprovalRequest) (application : ApplicationRecord)
      (hash id agreed : Option String) (now : ℕ)
      → application.draft_variant_key ≡ hash
      → payload_validation parse_time requests application hash id agreed now ≡ valid
      → IsApproved parse_time requests application id agreed now
  unfolding payload_validation
  payload_sound requests application (some d) (some i) (some a) now e h =
      let equal : a ≡ d = ground (arith, eq_iff a d) in
      let checked : request_validation parse_time (lookup i requests) application d now ≡ valid =
        ground arith in
      let (r, there, good) = found_request (lookup i requests) application d now checked in
      record {
        hash = d;
        id = i;
        request = r;
        hash_given = ground arith;
        id_given = ground arith;
        draft = e;
        named = refl;
        agreed = ap some equal;
        found = there;
        approves = good;
      }
  payload_sound requests application none id agreed now e h = ground arith
  payload_sound requests application (some d) none agreed now e h = ground arith
  payload_sound requests application (some d) (some i) none now e h = ground arith

  payload_complete :
      (requests : Dict ApprovalRequest) (application : ApplicationRecord)
      (id agreed : Option String) (now : ℕ)
      → IsApproved parse_time requests application id agreed now
      → payload_validation parse_time requests application application.draft_variant_key id agreed
          now
        ≡ valid
  unfolding payload_validation
  payload_complete requests application id agreed now h =
      rw (h.draft, h.named, h.agreed, h.found)
        (ground (
          arith,
          h.hash_given,
          h.id_given,
          eq_iff h.hash h.hash,
          request_complete h.request application h.hash now h.approves,
        ))

  -- The payload of an approved submission is valid exactly when the application has a draft hash, the
  -- payload carries that hash and the id of a request in the database, and this request is an approved
  -- one for submitting this application with this hash that is not past its expiry.
  pub validate_approved_submit_payload-valid_iff :
      (requests : Dict ApprovalRequest) (application : ApplicationRecord)
      (request_id approved_hash : Option String) (now : ℕ)
      → (validate_approved_submit_payload parse_time requests application request_id approved_hash
            now
          ≡ valid)
        ↔ IsApproved parse_time requests application request_id approved_hash now
  unfolding validate_approved_submit_payload
  validate_approved_submit_payload-valid_iff requests application request_id approved_hash now = (
    λ h.
        payload_sound requests application application.draft_variant_key request_id approved_hash
          now refl h,
    λ h. payload_complete requests application request_id approved_hash now h,
  )
