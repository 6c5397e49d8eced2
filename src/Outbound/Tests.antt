-- ===== src/Outbound/Tests.antt =====
-- Outbound messages at concrete inputs.
use telegram_job_search_auto.Common.{
  ℕ, String, true, false, ◌≡◌, refl, ◌↔◌, ◌⊎◌, inl, none, some, [], ◌∷◌, lookup,
  text_includes_any_case, utf16_length,
}
use telegram_job_search_auto.Domain.Types.{
  AppMode, ProviderStatus, Action, PolicyDecision, allow, clarifying_question,
}
use telegram_job_search_auto.Domain.Samples.{sample_profile}
use telegram_job_search_auto.Domain.Policy.{
  PolicyInput, check, conclude, global_check, action_checks, add_failed, push, common_checks,
}
use telegram_job_search_auto.Outbound.{
  OutboundMessage, DispatchStatus, DispatchInput, Transport, Approval, Validation, dispatch,
  dispatch_status, dispatch_errors, validate_outbound, all_fact_flags, names_sensitive,
}
use telegram_job_search_auto.Outbound.Records.{OutboundMessageRecord, Database, DispatchRecord}
use telegram_job_search_auto.Outbound.Gates.{may_send, dispatch_status-sent, dispatch_status-check}
use telegram_job_search_auto.Outbound.Ledger.{HasKept, record_all, record_all-HasKept}

abbrev reply_policy : PolicyInput
reply_policy = record {
  action = Action.send_recruiter_reply;
  mode = AppMode.review_first;
  provider_status = ProviderStatus.stable;
  candidate_profile = sample_profile;
  score = none;
  dedup_decision = none;
  message_classification =
      some
        (record { allowed_auto_reply = true; confidence = 90; sensitive_data_requested = false });
  scheduling_decision = none;
  idempotency_key = some "reply:1";
  proof_ready = true;
  validation_passed = true;
  irreversible_actions_enabled = true;
  rate_limit_available = true;
}

abbrev message : OutboundMessage
message = record {
  conversation_id = "c1";
  inbound_message_id = "m1";
  category = clarifying_question;
  language = "en";
  text = "I live in Vienna.";
  facts_used = "current_location" ∷ [];
  idempotency_key = "reply:1";
}

abbrev live : DispatchInput
live = record {
  message = message;
  profile = sample_profile;
  provider_id = "hh";
  account_id = "a1";
  policy = check "v1" reply_policy;
  approval = Approval.approved;
  transport = some Transport.provider;
  transport_ready = true;
  live_send_enabled = true;
  irreversible_actions_enabled = true;
}

live-sent : dispatch_status live ≡ DispatchStatus.sent
unfolding check conclude global_check action_checks add_failed push common_checks dispatch_status
    dispatch_errors validate_outbound all_fact_flags names_sensitive lookup text_includes_any_case
    utf16_length
live-sent = refl

abbrev as_is : String → String
as_is s = s

abbrev iso : ℕ → String
iso n = "some day"

abbrev uuid : ℕ → String
uuid n = "new"

abbrev no_text : Validation → String
no_text v = ""

abbrev call : DispatchRecord
call = record {
  provider_id = "hh";
  account_id = "a1";
  message = message;
  result = dispatch as_is iso no_text live 0;
  actor = none;
}

abbrev empty_database : Database
empty_database = record { outbound_messages = []; audit_events = []; drawn = 0 }

abbrev sent_record : OutboundMessageRecord
sent_record = record {
  id = "outbound_1";
  provider_id = "hh";
  account_id = "a1";
  message = message;
  status = DispatchStatus.sent;
  proof = (dispatch as_is iso no_text live 0).proof;
  delivery_id = none;
  errors = [];
  created_at = "some day";
}

abbrev database : Database
database = record empty_database { outbound_messages = ("outbound_1", sent_record) ∷ [] }

dispatch_status-sent_example : (dispatch_status live ≡ DispatchStatus.sent) ↔ (may_send live ≡ true)
dispatch_status-sent_example = dispatch_status-sent live

dispatch_status-check_example :
    ((check "v1" reply_policy).decision ≡ allow)
    ⊎ ((check "v1" reply_policy).decision ≡ PolicyDecision.requires_user_approval)
      × (Approval.approved ≡ Approval.approved)
dispatch_status-check_example = dispatch_status-check "v1" reply_policy live refl live-sent

record_all-HasKept_example :
    HasKept "reply:1" "outbound_1" sent_record
      (record_all uuid iso ((call, 7) ∷ (call, 8) ∷ []) database)
record_all-HasKept_example =
    record_all-HasKept uuid iso "reply:1" "outbound_1" sent_record ((call, 7) ∷ (call, 8) ∷ [])
      database refl (inl refl, (inl refl, tt))
