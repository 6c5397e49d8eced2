-- ===== src/Approvals/Tests.antt =====
-- Approval requests at concrete inputs.
use telegram_job_search_auto.Common.{
  ℕ, ◌≤◌, String, true, ◌≡◌, ◌≢◌, refl, Option, none, some, List, [], ◌∷◌, lookup, values, map,
  keep, All, ◌++◌, ◌⊎◌, false, includes, eq_iff, truthy?, insert,
}
use telegram_job_search_auto.Approvals.{
  ApprovalRequest, Draft, create_request, AuditEvent, irreversible_approval_actions, pending,
  approved, expired, Database, ResolveInput, approve, resolve_request, resolved_to, is_overdue,
  expire_requests, audit,
}
use telegram_job_search_auto.Approvals.Machine.{
  Call, resolve_call, expire_call, perform_all, perform, Follows, perform_all-Follows,
}
use telegram_job_search_auto.Approvals.Closed.{closed_request-stays, create_request-bound}
use telegram_job_search_auto.Approvals.Expiry.{matter, expiry_of, expire_requests_complete}

abbrev uuid : ℕ → String
uuid n = "new"

abbrev clock : ℕ → String
clock n = "today"

abbrev iso : ℕ → String
iso n = "some day"

abbrev at_900 : String → Option ℕ
at_900 text = some 900

abbrev request : ApprovalRequest
request = record {
  id = "approval-1";
  user_id = "user-1";
  entity_type = "application";
  entity_id = "app-1";
  requested_action = "send_application";
  status = pending;
  requested_at = "some day";
  resolved_at = none;
  expires_at = "later";
  policy_decision_id = none;
  draft_hash = some "h1";
  manual_review_id = none;
}

abbrev closed : ApprovalRequest
closed = resolved_to expired "some day" request

abbrev holding : ApprovalRequest → Database
holding r = record { approval_requests = ("approval-1", r) ∷ []; audit_events = []; drawn = 4 }

abbrev approval : ResolveInput
approval = record {
  id = "approval-1";
  resolution = approve;
  actor = "user-1";
  draft_hash = some "h1";
  reason = none;
}

abbrev calls : List Call
calls = resolve_call approval 500 ∷ []

abbrev later_calls : List Call
later_calls = expire_call 1000 ∷ resolve_call approval 2000 ∷ []

engine : Unit {0}
unfolding perform_all perform resolve_request audit expire_requests lookup insert
engine = tt

never_again : (n : ℕ) → 4 ≤ n → uuid n ≢ "approval-1"
never_again n h e = cc ((eq_iff _ _).1 e)

request_there : lookup "approval-1" (holding request).approval_requests ≡ some request
unfolding engine
request_there = refl

closed_there : lookup "approval-1" (holding closed).approval_requests ≡ some closed
unfolding engine
closed_there = refl

abbrev granted : ApprovalRequest
granted = resolved_to approved "some day" request

granted_there :
    lookup "approval-1"
      (perform_all uuid clock iso at_900 (holding request) calls).approval_requests
    ≡ some granted
unfolding engine
granted_there = refl

perform_all-Follows_example :
    Follows uuid clock iso at_900 "approval-1" request
      (perform_all uuid clock iso at_900 (holding request) later_calls)
perform_all-Follows_example =
    perform_all-Follows uuid clock iso at_900 "approval-1" request later_calls (holding request)
      never_again request_there

closed_request-stays_example :
    lookup "approval-1"
      (perform_all uuid clock iso at_900 (holding closed) later_calls).approval_requests
    ≡ some closed
closed_request-stays_example =
    closed_request-stays uuid clock iso at_900 "approval-1" closed later_calls (holding closed)
      never_again closed_there refl

-- The draft that the request is of.
abbrev draft : Draft
draft = record {
  user_id = "user-1";
  entity_type = "application";
  entity_id = "app-1";
  requested_action = "send_application";
  expires_at = "later";
  policy_decision_id = none;
  draft_hash = some "h1";
  manual_review_id = none;
}

asked_again :
    create_request uuid clock iso at_900 draft 1 (holding request) ≡ (holding request, request)
unfolding create_request
asked_again = refl

create_request-bound_example :
    ((includes draft.requested_action irreversible_approval_actions ≡ false)
      ⊎ (truthy? draft.draft_hash ≡ true))
    × (granted.draft_hash ≡ draft.draft_hash)
    × (granted.requested_action ≡ draft.requested_action)
create_request-bound_example =
    create_request-bound uuid clock iso at_900 draft 1 request granted calls (holding request)
      (holding request) asked_again never_again request_there granted_there refl

expire_requests_complete_example :
    let (after, gone) = expire_requests uuid clock iso at_900 1000 (holding request) in
    All (λ r. is_overdue at_900 1000 r ≡ false) (values after.approval_requests)
    × (gone
        ≡ map
            (resolved_to expired (iso 1000))
            (keep (is_overdue at_900 1000) (values (holding request).approval_requests)))
    × ((events : List AuditEvent) × (after.audit_events ≡ (holding request).audit_events ++ events)
        × (map matter events ≡ map expiry_of gone))
expire_requests_complete_example =
    expire_requests_complete uuid clock iso at_900 1000 (holding request)
