-- ===== src/Outbound.antt =====
-- packages/domain/src/services.ts: `validateOutbound` of `ConversationEngine` and
-- `OutboundDispatchService`, with their types of packages/domain/src/types.ts and schemas.ts.
-- `sha256_hex` is the digest, `iso` is `toISOString`, `validation_text` is `JSON.stringify`.
pub mod Records
pub mod Gates
pub mod Ledger
pub mod Single
pub mod Tests
use telegram_job_search_auto.Common.{
  ℕ, String, Bool, true, false, not, ◌&&◌, ◌||◌, Option, none, some, List, [], ◌∷◌, ◌++◌,
  if◌then◌else◌, Dict, lookup, is_empty, or_else, ltb, concat, text_includes_any_case, utf16_length,
  any,
}
use telegram_job_search_auto.Domain.Types.{
  PolicyDecision, deny, requires_user_approval, decision_text, MessageCategory,
}
use telegram_job_search_auto.Domain.Profile.{
  CandidateProfile, Fact, Disclosure, forbidden, forbidden_without_user_approval,
}
use telegram_job_search_auto.Domain.Policy.{PolicyOutput}
use telegram_job_search_auto.Domain.Keys.{stable_hash}

pub record OutboundMessage : Type 0 where
  pub conversation_id : String
  pub inbound_message_id : String
  pub category : MessageCategory
  pub language : String
  pub text : String
  pub facts_used : List String
  pub idempotency_key : String

pub data DispatchStatus : Type 0 where
  dry_run_recorded queued_for_review blocked sent : DispatchStatus

pub data ProofStatus : Type 0 where
  proof_recorded queued_for_review blocked sent : ProofStatus

pub data Transport : Type 0 where
  fixture provider telegram calendar : Transport

pub data Approval : Type 0 where
  approved pending rejected : Approval

pub record OutboundDispatchProof : Type 0 where
  pub proof_id : String
  pub outbound_message_id : String
  pub provider_id : String
  pub account_id : String
  pub conversation_id : String
  pub inbound_message_id : String
  pub idempotency_key : String
  pub transport : Transport
  pub status : ProofStatus
  pub text_hash : String
  pub validation_hash : String
  pub policy_decision : PolicyDecision
  pub created_at : String
  pub delivered_at : Option String

pub record OutboundDispatchResult : Type 0 where
  pub status : DispatchStatus
  pub proof : OutboundDispatchProof
  pub delivery_id : Option String
  pub errors : List String

pub record Validation : Type 0 where
  pub valid : Bool
  pub risk_flags : List String

abbrev is_withheld : Disclosure → Bool
is_withheld forbidden = true
is_withheld forbidden_without_user_approval = true
is_withheld _ = false

-- What the loop pushes for one fact.
abbrev pub fact_flags : Dict Fact → String → List String
fact_flags facts fact = flags_of (lookup fact facts)
  where
    flags_of : Option Fact → List String
    flags_of none = concat ("unsupported_fact:" ∷ fact ∷ []) ∷ []
    flags_of (some entry) =
        if is_withheld entry.disclosure then concat ("forbidden_fact:" ∷ fact ∷ []) ∷ [] else []

unfoldable pub all_fact_flags : Dict Fact → List String → List String
all_fact_flags facts [] = []
all_fact_flags facts (fact ∷ rest) = fact_flags facts fact ++ all_fact_flags facts rest

-- `/citizenship|passport|visa/i.test(text)`
unfoldable pub names_sensitive : String → Bool
names_sensitive text =
    any (λ word. text_includes_any_case word text) ("citizenship" ∷ "passport" ∷ "visa" ∷ [])

-- `validateOutbound`
unfoldable pub validate_outbound : OutboundMessage → CandidateProfile → Validation
unfolding all_fact_flags names_sensitive
validate_outbound message profile =
    let risk_flags =
      all_fact_flags profile.facts message.facts_used
      ++ (if ltb 1200 (utf16_length message.text) then "reply_too_long" ∷ [] else [])
      ++ (if names_sensitive message.text then "sensitive_fact_detected" ∷ [] else []) in
    record { valid = is_empty risk_flags; risk_flags = risk_flags }

-- What `dispatch` is given; a flag that is left out counts as false.
pub record DispatchInput : Type 0 where
  pub message : OutboundMessage
  pub profile : CandidateProfile
  pub provider_id : String
  pub account_id : String
  pub policy : PolicyOutput
  pub approval : Approval
  pub transport : Option Transport
  pub transport_ready : Bool
  pub live_send_enabled : Bool
  pub irreversible_actions_enabled : Bool

abbrev pub is_fixture : Transport → Bool
is_fixture fixture = true
is_fixture _ = false

abbrev pub is_deny : PolicyDecision → Bool
is_deny deny = true
is_deny _ = false

abbrev pub asks_user : PolicyDecision → Bool
asks_user PolicyDecision.requires_user_approval = true
asks_user _ = false

abbrev pub is_rejected : Approval → Bool
is_rejected rejected = true
is_rejected _ = false

abbrev pub is_approved : Approval → Bool
is_approved approved = true
is_approved _ = false

abbrev pub transport_of : DispatchInput → Transport
transport_of input = or_else input.transport fixture

unfoldable pub dispatch_errors : DispatchInput → List String
unfolding validate_outbound
dispatch_errors input =
    let validation = validate_outbound input.message input.profile in
    (if not validation.valid then validation.risk_flags else [])
    ++ (if is_deny input.policy.decision then input.policy.reasons else [])
    ++ (if is_rejected input.approval then "approval_rejected" ∷ [] else [])
    ++ (if input.live_send_enabled && is_fixture (transport_of input)
        then "live_transport_required" ∷ []
        else [])
    ++ (if input.live_send_enabled && not input.transport_ready
        then "transport_readiness_required" ∷ []
        else [])
    ++ (if input.live_send_enabled && not input.irreversible_actions_enabled
        then "irreversible_actions_disabled" ∷ []
        else [])

unfoldable pub dispatch_status : DispatchInput → DispatchStatus
unfolding dispatch_errors
dispatch_status input =
    if not (is_empty (dispatch_errors input))
    then DispatchStatus.blocked
    else if asks_user input.policy.decision && not (is_approved input.approval)
    then DispatchStatus.queued_for_review
    else if input.live_send_enabled
    then DispatchStatus.sent
    else dry_run_recorded

abbrev pub proof_status : DispatchStatus → ProofStatus
proof_status dry_run_recorded = proof_recorded
proof_status DispatchStatus.queued_for_review = ProofStatus.queued_for_review
proof_status DispatchStatus.blocked = ProofStatus.blocked
proof_status DispatchStatus.sent = ProofStatus.sent

abbrev pub is_sent : DispatchStatus → Bool
is_sent DispatchStatus.sent = true
is_sent _ = false

-- `OutboundDispatchService.dispatch` at the time `now`.
unfoldable pub dispatch :
    (sha256_hex : String → String) (iso : ℕ → String) (validation_text : Validation → String)
    → DispatchInput
    → ℕ
    → OutboundDispatchResult
unfolding dispatch_status
dispatch sha256_hex iso validation_text input now =
    let message = input.message in
    let status = dispatch_status input in
    let hash = stable_hash sha256_hex in
    record {
      status = status;
      proof = record {
        proof_id =
            concat (
              "outbound_proof_"
              ∷ hash (concat (message.idempotency_key ∷ ":" ∷ iso now ∷ []))
              ∷ []);
        outbound_message_id = concat ("outbound_" ∷ hash message.idempotency_key ∷ []);
        provider_id = input.provider_id;
        account_id = input.account_id;
        conversation_id = message.conversation_id;
        inbound_message_id = message.inbound_message_id;
        idempotency_key = message.idempotency_key;
        transport = transport_of input;
        status = proof_status status;
        text_hash = hash message.text;
        validation_hash = hash (validation_text (validate_outbound message input.profile));
        policy_decision = input.policy.decision;
        created_at = iso now;
        delivered_at = if is_sent status then some (iso now) else none;
      };
      delivery_id =
          if is_sent status
          then some (concat ("delivery_" ∷ hash message.idempotency_key ∷ []))
          else none;
      errors = dispatch_errors input;
    }
