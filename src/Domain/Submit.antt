-- ===== src/Domain/Submit.antt =====
-- packages/domain/src/services.ts: the gates before a live submission (`SubmitGuardSequence`,
-- `ReviewFirstSubmitGate`, `SubmitApprovalOrchestrator`, `ControlledAutoApplyEligibility`) and the
-- ramp (`AutoApplyRampController`). A timestamp is what `Date` makes of its text, in milliseconds;
-- `none` is NaN, with which every comparison is false. Rates are in ten-thousandths.
pub mod Gates
pub mod Controlled
pub mod Ramp
pub mod Tests
use telegram_job_search_auto.Common.{
  ℕ, ◌*◌, ◌%◌, ◌++◌, min, max, String, Bool, true, false, not, ◌&&◌, Option, none, some, List, [],
  ◌∷◌, ◌==◌, if◌then◌else◌, leb, ltb, is_empty, every, truthy, truthy?, or_else, concat, includes,
  map,
}
use telegram_job_search_auto.Domain.Types.{
  PolicyDecision, allow, decision_text, ProviderStatus, provider_status_text,
}
use telegram_job_search_auto.Domain.Policy.{
  PolicyOutput, ScoreDecision, shortlisted, DedupStatus, new, is_stable,
}
use telegram_job_search_auto.Domain.Keys.{prefix, parse_hex, stable_hash}

abbrev pub Timestamp : Type 0
Timestamp = Option ℕ

-- `new Date(t).getTime() <= now`.
abbrev pub is_at_most : Timestamp → ℕ → Bool
is_at_most none now = false
is_at_most (some t) now = leb t now

pub record Check : Type 0 where
  pub name : String
  pub passed : Bool
  pub reason : Option String

pub data DryRunState : Type 0 where
  not_run failed submit_boundary_reached : DryRunState

pub record GuardInput : Type 0 where
  pub refetch_passed : Option Bool
  pub auth_valid : Option Bool
  pub rate_limit_available : Option Bool
  pub policy : PolicyOutput
  pub dry_run_passed : Bool
  pub dry_run_state : Option DryRunState
  pub proof_ready : Bool
  pub idempotency_key : Option String
  pub recent_canary_passed : Bool
  pub provider_status : ProviderStatus

pub record GuardResult : Type 0 where
  pub passed : Bool
  pub checks : List Check

abbrev pub is_allow : PolicyDecision → Bool
is_allow PolicyDecision.allow = true
is_allow _ = false

abbrev pub is_boundary : DryRunState → Bool
is_boundary submit_boundary_reached = true
is_boundary _ = false

-- The reason of a check whose text is given only when the flag is false.
abbrev unless : Bool → String → Option String
unless true reason = none
unless false reason = some reason

-- The reason of a check on a flag that may be missing, which counts as true.
abbrev unless? : Option Bool → String → Option String
unless? (some false) reason = some reason
unless? _ reason = none

abbrev checked : String → Bool → String → Check
checked name ok reason = record { name = name; passed = ok; reason = unless ok reason }

abbrev checked? : String → Option Bool → String → Check
checked? name flag reason = record {
  name = name;
  passed = or_else flag true;
  reason = unless? flag reason;
}

-- `SubmitGuardSequence.evaluate`
unfoldable pub evaluate_guard : GuardInput → GuardResult
evaluate_guard input =
    let boundary =
      input.dry_run_passed && is_boundary (or_else input.dry_run_state submit_boundary_reached) in
    let checks : List Check =
      checked? "refetch_passed" input.refetch_passed "Job re-fetch did not pass"
      ∷ checked? "auth_valid" input.auth_valid "Provider auth is not valid"
      ∷ checked? "rate_limit_available" input.rate_limit_available "Rate limit is not available"
      ∷ checked "policy_allows_submit" (is_allow input.policy.decision)
          (concat ("Policy decision is " ∷ decision_text input.policy.decision ∷ []))
      ∷ checked "dry_run_state_submit_boundary" boundary "Dry-run did not reach submit boundary"
      ∷ checked "proof_ready" input.proof_ready "Proof capture is not ready"
      ∷ checked "idempotency_key_present" (truthy? input.idempotency_key)
          "Idempotency key is missing"
      ∷ checked "recent_canary_passed" input.recent_canary_passed "Recent canary has not passed"
      ∷ checked "provider_stable" (is_stable input.provider_status)
          (concat ("Provider status is " ∷ provider_status_text input.provider_status ∷ []))
      ∷ [] in
    record { passed = every (λ c. c.passed) checks; checks = checks }

pub record GateApproval : Type 0 where
  pub status : String
  pub draft_hash : Option String
  pub requested_action : String
  pub expires_at : Timestamp

pub record GateInput : Type 0 where
  pub approval_request : Option GateApproval
  pub current_draft_hash : String
  pub policy : PolicyOutput
  pub live_submit_enabled : Bool

pub record GateResult : Type 0 where
  pub allowed : Bool
  pub reasons : List String

-- One reason, or none, as `if (fails) reasons.push(reason)` adds it.
abbrev when : Bool → String → List String
when true reason = reason ∷ []
when false reason = []

draft_hash_reasons : Option String → String → List String
draft_hash_reasons none current = "approval_draft_hash_missing" ∷ []
draft_hash_reasons (some hash) current =
    if truthy hash
    then when (not (hash == current)) "approval_draft_hash_mismatch"
    else "approval_draft_hash_missing" ∷ []

approval_reasons : Option GateApproval → String → ℕ → List String
unfolding draft_hash_reasons
approval_reasons none current now = "approval_required" ∷ []
approval_reasons (some a) current now =
    when (not (a.status == "approved")) (concat ("approval_status_" ∷ a.status ∷ []))
    ++ (when (not (a.requested_action == "send_application")) "approval_action_mismatch"
        ++ (when (is_at_most a.expires_at now) "approval_expired"
            ++ draft_hash_reasons a.draft_hash current))

-- `ReviewFirstSubmitGate.evaluate`
unfoldable pub evaluate_gate : GateInput → ℕ → GateResult
unfolding approval_reasons
evaluate_gate input now =
    let reasons : List String =
      when (not input.live_submit_enabled) "live_submit_disabled"
      ++ (approval_reasons input.approval_request input.current_draft_hash now
          ++ when (not (is_allow input.policy.decision))
              (concat ("policy_" ∷ decision_text input.policy.decision ∷ []))) in
    record { allowed = is_empty reasons; reasons = reasons }

-- `[...new Set(xs)]`: the first of each, in order; `seen` holds those that came before.
unfoldable pub distinct_from : List String → List String → List String
distinct_from seen [] = []
distinct_from seen (x ∷ xs) =
    let again = distinct_from seen xs in
    let first = x ∷ distinct_from (x ∷ seen) xs in if includes x seen then again else first

unfoldable pub distinct : List String → List String
unfolding distinct_from
distinct xs = distinct_from [] xs

pub record SubmitPlan : Type 0 where
  pub enqueue : Bool
  pub queue_name : String
  pub idempotency_key : String
  pub reasons : List String

module _ (sha256_hex : String → String) where
  -- `SubmitApprovalOrchestrator.plan`
  unfoldable pub plan : String → GateInput → ℕ → SubmitPlan
  plan application_id input now =
      let gate = evaluate_gate input now in
      record {
        enqueue = gate.allowed;
        queue_name = "auto_apply_queue";
        idempotency_key = concat (
            "approved_submit:"
            ∷ application_id
            ∷ ":"
            ∷ stable_hash sha256_hex input.current_draft_hash
            ∷ []);
        reasons = distinct (gate.reasons ++ input.policy.reasons);
      }

pub record EligibilityInput : Type 0 where
  pub score_decision : ScoreDecision
  pub score : ℕ
  pub dedup_status : DedupStatus
  pub extraction_confidence : ℕ
  pub risk_flags : List String
  pub recent_canary_passed : Bool
  pub provider_status : ProviderStatus
  pub daily_remaining : ℕ
  pub company_remaining : ℕ
  pub clone_group_remaining : ℕ
  pub ramp_percent : ℕ
  pub entity_key : String

pub record Eligibility : Type 0 where
  pub eligible : Bool
  pub checks : List Check

abbrev pub scored_shortlisted : ScoreDecision → Bool
scored_shortlisted shortlisted = true
scored_shortlisted _ = false

abbrev pub deduped_new : DedupStatus → Bool
deduped_new new = true
deduped_new _ = false

-- `bucket % 100 < percent`, with NaN for a hash that is no number.
abbrev pub in_ramp : Option ℕ → ℕ → Bool
in_ramp none percent = false
in_ramp (some n) percent = ltb (n % 100) percent

abbrev join : String → List String → String
join sep [] = ""
join sep (x ∷ []) = x
join sep (x ∷ y ∷ ys) = concat (x ∷ sep ∷ join sep (y ∷ ys) ∷ [])

module _ (sha256_hex : String → String) where
  -- `ControlledAutoApplyEligibility.evaluate`; `decimal` prints a number.
  unfoldable pub evaluate_eligibility : (ℕ → String) → EligibilityInput → Eligibility
  evaluate_eligibility decimal input =
      let bucket = parse_hex (prefix 8 (stable_hash sha256_hex input.entity_key)) in
      let checks : List Check =
        checked "score_shortlisted" (scored_shortlisted input.score_decision && leb 85 input.score)
          "Score below controlled threshold"
        ∷ checked "dedup_new" (deduped_new input.dedup_status)
            "Duplicate risk blocks controlled auto-apply"
        ∷ checked "extraction_confidence" (leb 90 input.extraction_confidence)
            "Extraction confidence below controlled threshold"
        ∷ checked "no_risk_flags" (is_empty input.risk_flags)
            (concat ("Risk flags present: " ∷ join ", " input.risk_flags ∷ []))
        ∷ checked "recent_canary_passed" input.recent_canary_passed "Recent canary has not passed"
        ∷ checked "provider_stable" (is_stable input.provider_status)
            (concat ("Provider status is " ∷ provider_status_text input.provider_status ∷ []))
        ∷ checked "daily_rate_limit" (ltb 0 input.daily_remaining) "Daily rate limit exhausted"
        ∷ checked "company_limit" (ltb 0 input.company_remaining)
            "Company application limit exhausted"
        ∷ checked "clone_group_limit" (ltb 0 input.clone_group_remaining)
            "Clone group limit exhausted"
        ∷ checked "ramp_bucket" (in_ramp bucket input.ramp_percent)
            (concat ("Outside current ramp " ∷ decimal input.ramp_percent ∷ "%" ∷ []))
        ∷ [] in
      record { eligible = every (λ c. c.passed) checks; checks = checks }

pub record RampInput : Type 0 where
  pub current_ramp_percent : ℕ
  pub failure_rate : ℕ
  pub duplicate_count : ℕ
  pub canary_passed : Bool

pub record RampDecision : Type 0 where
  pub next_ramp_percent : ℕ
  pub rollback : Bool
  pub reasons : List String

-- `AutoApplyRampController.decide`
unfoldable pub decide_ramp : RampInput → RampDecision
decide_ramp input =
    let reasons : List String =
      when (not input.canary_passed) "canary_failed"
      ++ (when (ltb 500 input.failure_rate) "failure_rate_above_threshold"
          ++ when (ltb 0 input.duplicate_count) "duplicate_detected") in
    if is_empty reasons
    then record {
      next_ramp_percent = min 100 (max 5 (input.current_ramp_percent * 2));
      rollback = false;
      reasons = "ramp_can_increase" ∷ [];
    }
    else record { next_ramp_percent = 0; rollback = true; reasons = reasons }
