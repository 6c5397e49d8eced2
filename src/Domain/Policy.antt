-- ===== src/Domain/Policy.antt =====
-- packages/domain/src/services.ts: `PolicyEngine`, which decides whether an irreversible action may
-- run. Confidences are in hundredths. A `push` adds a check, and its reason when the check fails.
pub mod Allow
pub mod Reasons
pub mod Tests
use telegram_job_search_auto.Common.{
  ℕ, String, Bool, true, false, not, ◌&&◌, ◌||◌, Option, none, some, List, [], ◌∷◌, ◌++◌,
  if◌then◌else◌, leb, is_empty, keep, truthy?, concat,
}
use telegram_job_search_auto.Domain.Types.{
  AppMode, mode_text, ProviderStatus, provider_status_text, PolicyDecision, allow, deny,
  requires_user_approval, Action, MessageCategory,
}
use telegram_job_search_auto.Domain.Profile.{CandidateProfile}

pub data CheckResult : Type 0 where
  passed failed warning : CheckResult

pub data Severity : Type 0 where
  hard_deny approval_required warning : Severity

pub record PolicyCheck : Type 0 where
  pub name : String
  pub result : CheckResult
  pub severity : Severity
  pub reason : Option String

pub data ScoreDecision : Type 0 where
  rejected shortlisted : ScoreDecision

pub data DedupStatus : Type 0 where
  duplicate new possible_duplicate : DedupStatus

pub data SchedulingStatus : Type 0 where
  confirm_slot propose_alternatives ask_clarification manual_review : SchedulingStatus

pub record PolicyProof : Type 0 where
  pub timezone_matched : Bool
  pub min_notice_satisfied : Bool
  pub inside_availability_window : Bool
  pub no_calendar_conflict : Bool
  pub max_per_day_satisfied : Bool

-- The fields of the classification, score, dedup and scheduling results that the engine reads.
pub record Classification : Type 0 where
  pub allowed_auto_reply : Bool
  pub confidence : ℕ
  pub sensitive_data_requested : Bool

pub record Scheduling : Type 0 where
  pub status : SchedulingStatus
  pub policy_proof : PolicyProof

pub record PolicyInput : Type 0 where
  pub action : Action
  pub mode : AppMode
  pub provider_status : ProviderStatus
  pub candidate_profile : CandidateProfile
  pub score : Option ScoreDecision
  pub dedup_decision : Option DedupStatus
  pub message_classification : Option Classification
  pub scheduling_decision : Option Scheduling
  pub idempotency_key : Option String
  pub proof_ready : Bool
  pub validation_passed : Bool
  pub irreversible_actions_enabled : Bool
  pub rate_limit_available : Bool

pub record PolicyOutput : Type 0 where
  pub decision : PolicyDecision
  pub action : Action
  pub policy_version : String
  pub checks : List PolicyCheck
  pub requires_user_approval : Bool
  pub reasons : List String

-- The two lists that the engine builds up.
pub record Trail : Type 0 where
  pub checks : List PolicyCheck
  pub reasons : List String

abbrev result_of : Bool → CheckResult
result_of true = passed
result_of false = failed

unfoldable pub push : String → Bool → String → Trail → Trail
push name ok reason t = record {
  checks =
      t.checks
      ++ record { name = name; result = result_of ok; severity = hard_deny; reason = some reason }
        ∷ [];
  reasons = if ok then t.reasons else t.reasons ++ reason ∷ [];
}

-- A check that is pushed by hand, without the closure.
unfoldable pub add_check : PolicyCheck → Trail → Trail
add_check c t = record t { checks = t.checks ++ c ∷ [] }

unfoldable pub add_failed : String → String → Trail → Trail
add_failed name reason t = record {
  checks =
      t.checks
      ++ record { name = name; result = failed; severity = hard_deny; reason = some reason } ∷ [];
  reasons = t.reasons ++ reason ∷ [];
}

abbrev pub is_paused : AppMode → Bool
is_paused AppMode.paused = true
is_paused _ = false

abbrev pub is_stable : ProviderStatus → Bool
is_stable ProviderStatus.stable = true
is_stable _ = false

abbrev pub is_shortlisted : Option ScoreDecision → Bool
is_shortlisted (some shortlisted) = true
is_shortlisted _ = false

abbrev pub is_new : Option DedupStatus → Bool
is_new (some new) = true
is_new _ = false

abbrev pub forbids_submit : AppMode → Bool
forbids_submit AppMode.read_only = true
forbids_submit AppMode.dry_run_apply = true
forbids_submit _ = false

abbrev pub is_review_first : AppMode → Bool
is_review_first AppMode.review_first = true
is_review_first _ = false

abbrev pub allows_reply : Option Classification → Bool
allows_reply none = false
allows_reply (some c) = c.allowed_auto_reply

abbrev pub is_confident : Option Classification → Bool
is_confident none = leb 82 0
is_confident (some c) = leb 82 c.confidence

abbrev pub asks_sensitive : Option Classification → Bool
asks_sensitive none = false
asks_sensitive (some c) = c.sensitive_data_requested

abbrev pub is_confirmed : Option Scheduling → Bool
is_confirmed (some s) = elim s.status [ confirm_slot ↦ true | _ ↦ false ]
is_confirmed none = false

abbrev pub proof_complete : Option Scheduling → Bool
proof_complete none = false
proof_complete (some s) =
    s.policy_proof.timezone_matched && s.policy_proof.min_notice_satisfied
    && s.policy_proof.inside_availability_window && s.policy_proof.no_calendar_conflict
    && s.policy_proof.max_per_day_satisfied

-- The six checks that every action meets.
unfoldable pub common_checks : PolicyInput → Trail
common_checks input =
    push "rate_limit_available" input.rate_limit_available "Rate limit exhausted" (
      push "provider_status_allows_write" (is_stable input.provider_status)
        (concat (
          "Provider status blocks write action: "
          ∷ provider_status_text input.provider_status
          ∷ []))
        (push "validation_passed" input.validation_passed "Validation failed" (
          push "proof_ready" input.proof_ready
            "Irreversible action requires proof capture readiness"
            (push "idempotency_key_present" (truthy? input.idempotency_key)
              "Irreversible action requires idempotency key"
              (push "mode_not_paused" (not (is_paused input.mode)) "Bot mode is paused"
                (record { checks = []; reasons = [] }))))))

unfoldable pub application_checks : PolicyInput → Trail → Trail
application_checks input t =
    let consent =
      push "auto_apply_consent" input.candidate_profile.user_consent.auto_apply
        "User consent for auto-apply is missing" t in
    let scored =
      push "score_shortlisted" (is_shortlisted input.score) "Job is not shortlisted" consent in
    let deduped =
      push "dedup_new" (is_new input.dedup_decision) "Duplicate or possible duplicate detected"
        scored in
    if forbids_submit input.mode
    then add_failed "mode_allows_submit"
        (concat ("Mode " ∷ mode_text input.mode ∷ " does not allow submit" ∷ [])) deduped
    else deduped

unfoldable pub reply_checks : PolicyInput → Trail → Trail
reply_checks input t =
    let consent =
      push "auto_reply_consent" input.candidate_profile.user_consent.auto_reply
        "User consent for auto-reply is missing" t in
    let allowed =
      push "classification_allows_reply" (allows_reply input.message_classification)
        "Message category is not allowed for auto-reply" consent in
    let confident =
      push "classification_confidence" (is_confident input.message_classification)
        "Message classification confidence is below threshold" allowed in
    if asks_sensitive input.message_classification
    then add_failed "sensitive_data_not_requested" "Sensitive data requested" confident
    else confident

unfoldable pub scheduling_checks : PolicyInput → Trail → Trail
scheduling_checks input t =
    let consent =
      push "interview_scheduling_consent" input.candidate_profile.user_consent.interview_scheduling
        "Interview scheduling consent is missing" t in
    let confirmed =
      push "scheduling_decision_confirmed" (is_confirmed input.scheduling_decision)
        "Scheduling decision is not confirmable" consent in
    push "scheduling_policy_proof_passed" (proof_complete input.scheduling_decision)
      "Scheduling policy proof is incomplete" confirmed

unfoldable pub action_checks : Action → PolicyInput → Trail → Trail
unfolding application_checks reply_checks scheduling_checks
action_checks Action.send_application input t = application_checks input t
action_checks Action.send_recruiter_reply input t = reply_checks input t
action_checks Action.confirm_interview_slot input t = scheduling_checks input t

unfoldable pub global_check : PolicyInput → Trail → Trail
unfolding add_check
global_check input t =
    if input.irreversible_actions_enabled
    then t
    else add_check
        (record {
          name = "irreversible_actions_enabled";
          result = warning;
          severity = Severity.warning;
          reason = some "Irreversible actions are globally disabled";
        })
        t

abbrev pub is_hard_failed : PolicyCheck → Bool
is_hard_failed c = elim c.result [
  | failed ↦ elim c.severity [ hard_deny ↦ true | _ ↦ false ]
  | _ ↦ false
]

unfoldable pub conclude : String → PolicyInput → Trail → PolicyOutput
conclude version input t =
    let denied : PolicyOutput = record {
      decision = deny;
      action = input.action;
      policy_version = version;
      checks = t.checks;
      requires_user_approval = false;
      reasons = t.reasons;
    } in
    let review : PolicyOutput = record {
      decision = PolicyDecision.requires_user_approval;
      action = input.action;
      policy_version = version;
      checks = t.checks;
      requires_user_approval = true;
      reasons = "Review-first or disabled irreversible-action mode requires user approval" ∷ [];
    } in
    let allowed : PolicyOutput = record {
      decision = allow;
      action = input.action;
      policy_version = version;
      checks = t.checks;
      requires_user_approval = false;
      reasons = [];
    } in
    if not (is_empty (keep is_hard_failed t.checks))
    then denied
    else if not input.irreversible_actions_enabled || is_review_first input.mode
    then review
    else allowed

-- `PolicyEngine.check`; the version is the engine's constructor argument.
unfoldable pub check : String → PolicyInput → PolicyOutput
check version input =
    conclude version input
      (global_check input (action_checks input.action input (common_checks input)))
