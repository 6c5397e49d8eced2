-- ===== src/Outbound/Gates.antt =====
-- When an outbound message is sent.
use telegram_job_search_auto.Common.{
  String, Bool, true, false, not, ◌&&◌, ◌||◌, ◌≡◌, refl, ◌↔◌, ◌⊎◌, inl, inr, Option, none, some,
  List, [], ◌∷◌, ◌++◌, Dict, lookup, is_empty, every, leb, utf16_length, arith, Option-cases,
  if◌then◌else◌,
}
use telegram_job_search_auto.Domain.Types.{PolicyDecision, allow, deny}
use telegram_job_search_auto.Domain.Profile.{
  CandidateProfile, Fact, Disclosure, allowed, range_only,
}
use telegram_job_search_auto.Domain.Policy.{PolicyInput, PolicyOutput, check}
use telegram_job_search_auto.Domain.Policy.Reasons.{check-decides, deny-reasons}
use telegram_job_search_auto.Outbound.{
  Approval, OutboundMessage, DispatchStatus, DispatchInput, fact_flags, all_fact_flags,
  names_sensitive, validate_outbound, dispatch_errors, dispatch_status, is_deny, is_rejected,
  is_approved, asks_user, is_fixture, transport_of,
}

abbrev may_disclose : Disclosure → Bool
may_disclose allowed = true
may_disclose range_only = true
may_disclose _ = false

-- The profile has the fact, and lets it be disclosed.
abbrev pub is_permitted : Dict Fact → String → Bool
is_permitted facts name = permits (lookup name facts)
  where
    permits : Option Fact → Bool
    permits none = false
    permits (some fact) = may_disclose fact.disclosure

empty-append : (xs ys : List String) → is_empty (xs ++ ys) ≡ (is_empty xs && is_empty ys)
empty-append [] ys = refl
empty-append (x ∷ xs) ys = refl

fact_flags-empty :
    (facts : Dict Fact) (name : String) → is_empty (fact_flags facts name) ≡ is_permitted facts name
fact_flags-empty facts name = elim (Option-cases (lookup name facts)) [
  | inl absent ↦ rw absent refl
  | inr (fact, there) ↦ rw there (ground arith)
]

all_fact_flags-empty :
    (facts : Dict Fact) (names : List String)
    → is_empty (all_fact_flags facts names) ≡ every (is_permitted facts) names
unfolding all_fact_flags
all_fact_flags-empty facts [] = refl
all_fact_flags-empty facts (name ∷ names) =
    rw (empty-append, fact_flags-empty, all_fact_flags-empty facts names) refl

-- A reply is valid when it discloses only what the profile permits, has at most 1200 characters and
-- names nothing sensitive.
abbrev pub is_sound : OutboundMessage → CandidateProfile → Bool
is_sound message profile =
    every (is_permitted profile.facts) message.facts_used
    && leb (utf16_length message.text) 1200
    && not (names_sensitive message.text)

validate_outbound-valid :
    (message : OutboundMessage) (profile : CandidateProfile)
    → (validate_outbound message profile).valid ≡ is_sound message profile
unfolding validate_outbound
validate_outbound-valid message profile =
    rw (empty-append, empty-append, all_fact_flags-empty) (ground arith)

-- What stands between a live message and its delivery, the policy and the approval aside.
abbrev pub is_live : DispatchInput → Bool
is_live input =
    input.live_send_enabled
    && not (is_fixture (transport_of input))
    && input.transport_ready
    && input.irreversible_actions_enabled

abbrev pub may_send : DispatchInput → Bool
may_send input =
    is_sound input.message input.profile
    && is_live input
    && not (is_rejected input.approval)
    && (not (is_deny input.policy.decision) || is_empty input.policy.reasons)
    && (not (asks_user input.policy.decision) || is_approved input.approval)

flags-valid :
    (message : OutboundMessage) (profile : CandidateProfile)
    → is_empty (validate_outbound message profile).risk_flags
      ≡ (validate_outbound message profile).valid
unfolding validate_outbound
flags-valid message profile = refl

errors-empty :
    (input : DispatchInput)
    → is_empty (dispatch_errors input) ≡ (
        is_sound input.message input.profile
        && (not (is_deny input.policy.decision) || is_empty input.policy.reasons)
        && not (is_rejected input.approval)
        && (not input.live_send_enabled || is_live input))
unfolding dispatch_errors
errors-empty input =
    rw (empty-append, empty-append, empty-append, empty-append, empty-append)
      (ground (
        arith,
        flags-valid input.message input.profile,
        validate_outbound-valid input.message input.profile,
      ))

-- A message is sent exactly when its text and its facts are sound, live sending is on with a ready
-- transport that is no fixture and with irreversible actions, the approval is not a rejection, a
-- denial by the policy has no reasons, and an approval that the policy asks for is given.
pub dispatch_status-sent :
    (input : DispatchInput)
    → (dispatch_status input ≡ DispatchStatus.sent) ↔ (may_send input ≡ true)
unfolding dispatch_status
dispatch_status-sent input = rw (errors-empty input) (ground arith)

settles :
    (output : PolicyOutput) (answer : Approval) (met global : Bool)
    → (not (is_deny output.decision) || is_empty output.reasons) ≡ true
    → (not (asks_user output.decision) || is_approved answer) ≡ true
    → (output.decision ≡ deny → is_empty output.reasons ≡ false)
    → output.decision
      ≡ (if met then if global then allow else PolicyDecision.requires_user_approval else deny)
    → (output.decision ≡ allow)
      ⊎ (output.decision ≡ PolicyDecision.requires_user_approval) × (answer ≡ Approval.approved)
settles output answer met global undenied asked reasons decides = ground arith

-- Under an answer of the policy engine, a message that is sent was allowed by it, or left by it to
-- the user and approved.
pub dispatch_status-check :
    (version : String) (i : PolicyInput) (input : DispatchInput)
    → input.policy ≡ check version i
    → dispatch_status input ≡ DispatchStatus.sent
    → ((check version i).decision ≡ allow)
      ⊎ ((check version i).decision ≡ PolicyDecision.requires_user_approval)
        × (input.approval ≡ Approval.approved)
dispatch_status-check version i input decided sent =
    let gate = (dispatch_status-sent input).0 sent in
    let undenied : (not (is_deny input.policy.decision) || is_empty input.policy.reasons) ≡ true =
      ground (arith, gate) in
    let asked : (not (asks_user input.policy.decision) || is_approved input.approval) ≡ true =
      ground (arith, gate) in
    settles (check version i) input.approval _ _ (rw decided at undenied) (rw decided at asked)
      (deny-reasons version i) (check-decides version i).0
