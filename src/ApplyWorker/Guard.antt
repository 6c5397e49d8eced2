-- ===== src/ApplyWorker/Guard.antt =====
-- apps/worker-apply/src/runner.ts: the policy and the guard as `processApprovedSubmit` computes them
-- from what it has read, and when that guard passes.
use telegram_job_search_auto.Common.{
  ℕ, String, Bool, true, ◌||◌, ◌≡◌, refl, ◌↔◌, Option, none, some, List, ◌==◌, arith, truthy,
  truthy?,
}
use telegram_job_search_auto.Domain.Types.{AppMode, ProviderStatus, Action, allow}
use telegram_job_search_auto.Domain.Profile.{CandidateProfile}
use telegram_job_search_auto.Domain.Policy.{
  PolicyInput, PolicyOutput, ScoreDecision, DedupStatus, check,
}
use telegram_job_search_auto.Domain.Policy.Allow.{MayAct, check-allow_iff}
use telegram_job_search_auto.Domain.Submit.{GuardResult, evaluate_guard, submit_boundary_reached}
use telegram_job_search_auto.Domain.Submit.Gates.{evaluate_guard-passed_iff}
use telegram_job_search_auto.ApplyWorker.Canary.{HasCanary, has_fresh_passed_canary_iff}
use telegram_job_search_auto.ApplyWorker.Proof.{IsProof, ready_iff}
use telegram_job_search_auto.Domain.Proof.{ProofPack}
use telegram_job_search_auto.Records.{ApplicationRecord}
use telegram_job_search_auto.ApplyWorker.{
  CanaryRunRecord, evaluate_submit_proof, deny_policy, has_fresh_passed_canary,
}

-- What the worker has read before it decides: from the database, the provider's health check, the
-- rate limits and the configuration.
pub record SubmitContext : Type 0 where
  pub application : ApplicationRecord
  pub proof_pack : Option ProofPack
  pub canary_runs : List CanaryRunRecord
  pub score : Option ScoreDecision
  pub dedup_decision : Option DedupStatus
  pub system_mode : AppMode
  pub candidate_profile : CandidateProfile
  pub provider_id : String
  pub provider_status : ProviderStatus
  pub rate_limit_allowed : Bool
  pub irreversible_actions_enabled : Bool

abbrev pub submit_input : SubmitContext → ScoreDecision → DedupStatus → PolicyInput
submit_input c score dedup = record {
  action = Action.send_application;
  mode = c.system_mode;
  provider_status = c.provider_status;
  candidate_profile = c.candidate_profile;
  score = some score;
  dedup_decision = some dedup;
  message_classification = none;
  scheduling_decision = none;
  idempotency_key = some c.application.idempotency_key;
  proof_ready = (evaluate_submit_proof c.application c.proof_pack).ready;
  validation_passed =
      (c.application.status == "application_prepared") || (c.application.status == "apply_queued");
  irreversible_actions_enabled = c.irreversible_actions_enabled;
  rate_limit_available = c.rate_limit_allowed;
}

policy_over : Option ScoreDecision → Option DedupStatus → SubmitContext → PolicyOutput
policy_over (some score) (some dedup) c = check "2026-05-16-v1" (submit_input c score dedup)
policy_over _ _ c = deny_policy Action.send_application "Missing score or dedup decision"

unfoldable pub submit_policy : SubmitContext → PolicyOutput
unfolding policy_over
submit_policy c = policy_over c.score c.dedup_decision c

unfoldable pub submit_guard : (String → Option ℕ) → SubmitContext → ℕ → GuardResult
submit_guard parse_time c now =
    let proof = evaluate_submit_proof c.application c.proof_pack in
    evaluate_guard (record {
      refetch_passed = none;
      auth_valid = none;
      rate_limit_available = some c.rate_limit_allowed;
      policy = submit_policy c;
      dry_run_passed = proof.ready;
      dry_run_state = some proof.dry_run_state;
      proof_ready = proof.ready;
      idempotency_key = some c.application.idempotency_key;
      recent_canary_passed = has_fresh_passed_canary parse_time c.canary_runs c.provider_id now;
      provider_status = c.provider_status;
    })

-- The context of a submission that may go to the provider.
pub record CanSubmit (parse_time : String → Option ℕ) (c : SubmitContext) (now : ℕ) : Type 0 where
  pub score : ScoreDecision
  pub dedup : DedupStatus
  pub proof : ProofPack
  pub scored : c.score ≡ some score
  pub deduped : c.dedup_decision ≡ some dedup
  pub may_act : MayAct (submit_input c score dedup)
  pub proof_kept : c.proof_pack ≡ some proof
  pub proven : IsProof c.application proof
  pub canary : HasCanary parse_time c.canary_runs c.provider_id now

policy_sound :
    (o : Option ScoreDecision) (d : Option DedupStatus) (c : SubmitContext)
    → (policy_over o d c).decision ≡ allow
    → (s : ScoreDecision) × (t : DedupStatus) × (o ≡ some s)
      × (d ≡ some t)
      × MayAct (submit_input c s t)
unfolding policy_over deny_policy
policy_sound (some s) (some t) c h = (s, t, refl, refl, (check-allow_iff _ _).0 h)
policy_sound (some s) none c h = ground arith
policy_sound none d c h = ground arith

ready-IsProof :
    (a : ApplicationRecord) (o : Option ProofPack)
    → (evaluate_submit_proof a o).ready ≡ true
    → (p : ProofPack) × (o ≡ some p) × IsProof a p
unfolding evaluate_submit_proof
ready-IsProof a none h = ground arith
ready-IsProof a (some p) h = (p, refl, (ready_iff a p).0 h)

guard_sound :
    (parse_time : String → Option ℕ) (c : SubmitContext) (now : ℕ)
    → (submit_guard parse_time c now).passed ≡ true
    → CanSubmit parse_time c now
unfolding submit_guard submit_policy
guard_sound parse_time c now h =
    let held = (evaluate_guard-passed_iff _).0 h in
    let (s, t, scored, deduped, may) = policy_sound c.score c.dedup_decision c held.policy_allows in
    let (p, kept, proven) = ready-IsProof c.application c.proof_pack held.proven in
    record {
      score = s;
      dedup = t;
      proof = p;
      scored = scored;
      deduped = deduped;
      may_act = may;
      proof_kept = kept;
      proven = proven;
      canary =
          (has_fresh_passed_canary_iff parse_time c.canary_runs c.provider_id now).0 held.canary;
    }

ready_state :
    (a : ApplicationRecord) (p : ProofPack)
    → IsProof a p
    → ((evaluate_submit_proof a (some p)).ready ≡ true)
      × ((evaluate_submit_proof a (some p)).dry_run_state ≡ submit_boundary_reached)
unfolding evaluate_submit_proof
ready_state a p h = rw ((ready_iff a p).1 h) (refl, refl)

keyed :
    (k : String)
    → ((key : String) × (some k ≡ some key) × (truthy key ≡ true))
    → truthy? (some k) ≡ true
keyed k (key, same, given) = ground (arith, same, given)

guard_complete :
    (parse_time : String → Option ℕ) (c : SubmitContext) (now : ℕ)
    → CanSubmit parse_time c now
    → (submit_guard parse_time c now).passed ≡ true
unfolding submit_guard submit_policy policy_over
guard_complete parse_time c now h =
    let (ready, state) = ready_state c.application h.proof h.proven in
    (evaluate_guard-passed_iff _).1 (record {
      refetched = refl;
      authenticated = refl;
      in_rate = h.may_act.in_rate;
      policy_allows = rw (h.scored, h.deduped) ((check-allow_iff _ _).1 h.may_act);
      dry_run = rw h.proof_kept ready;
      at_boundary = rw h.proof_kept state;
      proven = rw h.proof_kept ready;
      keyed = keyed c.application.idempotency_key h.may_act.keyed;
      canary = (has_fresh_passed_canary_iff parse_time c.canary_runs c.provider_id now).1 h.canary;
      stable = h.may_act.stable;
    })

-- The guard of the worker passes exactly when there are a score and a dedup decision with which the
-- policy engine's conditions for sending the application hold, a proof that its dry run reached the
-- submit boundary without an error and with its artifacts, and a passed canary run of the provider
-- that is at most a day old.
pub submit_guard-passed_iff :
    (parse_time : String → Option ℕ) (c : SubmitContext) (now : ℕ)
    → ((submit_guard parse_time c now).passed ≡ true) ↔ CanSubmit parse_time c now
submit_guard-passed_iff parse_time c now =
    (guard_sound parse_time c now, guard_complete parse_time c now)
