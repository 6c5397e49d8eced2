-- ===== src/ApplyWorker/Process.antt =====
-- apps/worker-apply/src/runner.ts: `processApprovedSubmit`.
-- `build_draft` stands for `buildApprovedApplicationDraft`, which ApplyWorker/Draft models and
-- Process/Content puts in its place; every clock reading of a run is `now`. `health` is what the
-- provider's health check gives; one that throws is left out. Of `provider.submitApplication` the world
-- keeps which drafts it was called with.
pub mod Sent
pub mod Content
pub mod Once
pub mod Tests
use telegram_job_search_auto.Common.{
  ℕ, ◌+◌, ◌*◌, String, Bool, true, false, not, ◌&&◌, ◌||◌, ◌⊎◌, inl, inr, Option, none, some, List,
  [], ◌∷◌, ◌++◌, map, keep, if◌then◌else◌, Dict, lookup, insert, values, or_else, includes, concat,
  truthy, truthy?, leb,
}
use telegram_job_search_auto.Domain.Types.{
  Action, PolicyDecision, deny, ProviderStatus, ErrorCode, captcha_required, provider_rate_limited,
  provider_terms_block, anti_automation_detected, error_text,
}
use telegram_job_search_auto.Domain.Json.{Json, str, obj, Fields, end, field}
use telegram_job_search_auto.Domain.Profile.{CandidateProfile, NormalizedJob}
use telegram_job_search_auto.Domain.Policy.{PolicyOutput, ScoreDecision, DedupStatus}
use telegram_job_search_auto.Domain.Submit.{GuardResult, Check}
use telegram_job_search_auto.Domain.Proof.{ProofPack}
use telegram_job_search_auto.Domain.Keys.{stable_hash}
use telegram_job_search_auto.Limits.{ApplicationLimitRecord, RateLimitAssessment}
use telegram_job_search_auto.Limits.Rules.{evaluate_application_rate_limits}
use telegram_job_search_auto.Approvals.{ApprovalRequest, text_or_null}
use telegram_job_search_auto.Records.{
  ApplicationRecord, Database, ProviderHealth, ReviewInput, high, EvidenceStatus,
}
use telegram_job_search_auto.Records.Applications.{
  set_application_status, record_proof_pack, link_proof,
}
use telegram_job_search_auto.Records.Reviews.{
  create_manual_review, update_provider_health, mark_provider_needs_review,
}
use telegram_job_search_auto.Records.Evidence.{record_policy_check, record_release_evidence}
use telegram_job_search_auto.Queue.Execute.{Ending, returned, worker_error, other_error}
use telegram_job_search_auto.ApplyWorker.{
  CanaryRunRecord, Validation, valid, invalid, validate_approved_submit_payload,
  evaluate_submit_proof, deny_policy,
}
use telegram_job_search_auto.ApplyWorker.Guard.{SubmitContext, submit_policy, submit_guard}
use telegram_job_search_auto.ApplyWorker.Provider.{
  ApplicationDraft, SubmitStatus, submitted, blocked, failed, ApplicationResult, SubmitAnswer,
  answered, rejected_with, Provider, DraftAnswer, draft_valid, draft_invalid, ProcessInput,
}
use telegram_job_search_auto.ApplyWorker.Writes.{
  set_status, hold, mark_incidents, record_evidence, settle_status,
}

-- The tables that the worker reads and does not write, with its configuration; `registry` throws
-- with a message.
pub record Reads : Type 0 where
  pub jobs : Dict NormalizedJob
  pub job_scores : Dict ScoreDecision
  pub dedup_decisions : Dict DedupStatus
  pub canary_runs : List CanaryRunRecord
  pub approval_requests : Dict ApprovalRequest
  pub candidate_profile : CandidateProfile
  pub registry : String → Provider ⊎ String
  pub irreversible_actions_enabled : Bool

pub record World : Type 0 where
  pub database : Database
  pub sent : List ApplicationDraft

pub record WorkerResult : Type 0 where
  pub application_id : String
  pub status : SubmitStatus
  pub guard : GuardResult
  pub policy : PolicyOutput
  pub provider_result_status : Option SubmitStatus

abbrev join : List String → String
join [] = ""
join (s ∷ []) = s
join (s ∷ t ∷ ss) = concat (s ∷ "; " ∷ join (t ∷ ss) ∷ [])

abbrev is_deny : PolicyDecision → Bool
is_deny deny = true
is_deny _ = false

-- The error that is thrown on.
abbrev thrown : Option String → String → Ending WorkerResult
thrown none message = other_error message
thrown (some code) message = worker_error code message

abbrev blocked_result : String → GuardResult → PolicyOutput → Ending WorkerResult
blocked_result id guard policy = returned (record {
  application_id = id;
  status = blocked;
  guard = guard;
  policy = policy;
  provider_result_status = none;
})

module _ (to_lower_case trim sha256_hex : String → String) (uuid : ℕ → String) (iso : ℕ → String)
    (parse_time : String → Option ℕ) (reads : Reads)
    (build_draft : ApplicationRecord → NormalizedJob → DraftAnswer) where
  abbrev limit_record : ApplicationRecord → ApplicationLimitRecord
  limit_record a = record {
    id = a.id;
    job_id = a.job_id;
    provider_id = a.provider_id;
    status = a.status;
    created_at = parse_time a.created_at;
    submitted_at = elim a.submitted_at [ none ↦ none | some at ↦ some (parse_time at) ];
  }

  -- `evaluateApplicationRateLimits` on what the worker gives it.
  abbrev rate_limit :
      ApplicationRecord → NormalizedJob → Provider → ℕ → Database → RateLimitAssessment
  rate_limit a job provider now db =
      evaluate_application_rate_limits to_lower_case sha256_hex
        (record {
          profile = reads.candidate_profile;
          applications = map limit_record (values db.applications);
          jobs = values reads.jobs;
          job = job;
          provider_id = some provider.provider_id;
          include_prepared = false;
          exclude_application_id = some a.id;
        })
        now

  -- The proof pack that the application names, if it names one that is there.
  abbrev proof_of : Option String → Database → Option ProofPack
  proof_of none db = none
  proof_of (some id) db = if truthy id then lookup id db.proof_packs else none

  -- What the policy and the guard are computed from.
  abbrev pub context : ApplicationRecord → NormalizedJob → Provider → ℕ → Database → SubmitContext
  context a job provider now db = record {
    application = a;
    proof_pack = proof_of a.proof_pack_id db;
    canary_runs = reads.canary_runs;
    score = lookup job.id reads.job_scores;
    dedup_decision = lookup job.id reads.dedup_decisions;
    system_mode = db.system_mode;
    candidate_profile = reads.candidate_profile;
    provider_id = provider.provider_id;
    provider_status = provider.health.status;
    rate_limit_allowed = (rate_limit a job provider now db).allowed;
    irreversible_actions_enabled = reads.irreversible_actions_enabled;
  }

  -- What follows the provider's answer to a draft; `applying` is the database that has the
  -- application under the status of that name.
  after_answer :
      SubmitAnswer
      → ApplicationDraft
      → ApplicationRecord
      → Provider
      → GuardResult
      → PolicyOutput
      → ProcessInput
      → String
      → ℕ
      → Database
      → World
      → World × Ending WorkerResult
  unfolding mark_incidents settle_status link_proof
  after_answer (rejected_with code message) draft a provider guard policy input submitted_at now
        applying w =
      (record { database = applying; sent = w.sent ++ (draft ∷ []) }, thrown code message)
  after_answer (answered result) draft a provider guard policy input submitted_at now applying w =
      let (proven, pack) =
        record_proof_pack uuid iso result.proof_pack "application" a.id (some "worker-apply-submit")
          now applying in
      let linked =
        link_proof uuid iso (lookup input.application_id proven.applications) input.application_id
          pack.proof_pack_id proven in
      let settled =
        settle_status trim sha256_hex uuid iso parse_time result.status a pack.proof_pack_id
          submitted_at input now linked in
      (
        record {
          database = mark_incidents uuid iso result.errors provider.provider_id a.id now settled;
          sent = w.sent ++ (draft ∷ []);
        },
        returned (record {
          application_id = a.id;
          status = result.status;
          guard = guard;
          policy = policy;
          provider_result_status = some result.status;
        }),
      )

  -- What is done with a draft: the provider is called with it, and its answer is recorded.
  submit :
      ApplicationDraft
      → ApplicationRecord
      → Provider
      → GuardResult
      → PolicyOutput
      → ProcessInput
      → ℕ
      → World
      → World × Ending WorkerResult
  unfolding after_answer
  submit draft a provider guard policy input now w =
      let submitted_at = or_else a.submitted_at (iso now) in
      after_answer (provider.submit_application draft) draft a provider guard policy input
        submitted_at now
        (set_status uuid iso a.id "applying" (some (some submitted_at)) now w.database) w

  with_draft :
      DraftAnswer
      → ApplicationRecord
      → Provider
      → GuardResult
      → PolicyOutput
      → ProcessInput
      → ℕ
      → World
      → World × Ending WorkerResult
  unfolding submit
  with_draft (draft_valid draft) a provider guard policy input now w =
      submit draft a provider guard policy input now w
  with_draft (draft_invalid reason) a provider guard policy input now w = (
    record w {
      database =
          hold uuid iso a.id "manual_review_required" "approved_draft_payload_invalid" reason now
            w.database;
    },
    blocked_result a.id
        (record {
          passed = false;
          checks =
              guard.checks
              ++ (record { name = "approved_draft_payload"; passed = false; reason = some reason }
                  ∷ []);
        })
        policy,
  )

  -- The part behind the check of the payload.
  decide :
      ApplicationRecord
      → NormalizedJob
      → Provider
      → ProcessInput
      → ℕ
      → World
      → World × Ending WorkerResult
  unfolding with_draft
  decide a job provider input now w =
      let db = update_provider_health provider.health w.database in
      let c = context a job provider now db in
      let policy = submit_policy c in
      let guard = submit_guard parse_time c now in
      let proof = evaluate_submit_proof a c.proof_pack in
      let checked = (record_policy_check uuid iso "application" a.id policy now db).0 in
      let reasons =
        map (λ (k : Check). or_else k.reason k.name)
          (keep (λ (k : Check). not k.passed) guard.checks)
        ++ (rate_limit a job provider now db).reasons
        ++ proof.reasons in
      if guard.passed
      then with_draft (build_draft a job) a provider guard policy input now
          (record w { database = checked })
      else (
        record w {
          database =
              hold uuid iso a.id
                (if is_deny policy.decision
                  then "apply_blocked_by_policy"
                  else "manual_review_required")
                "submit_guard_failed" (join reasons) now checked;
        },
        blocked_result a.id guard policy,
      )

  with_payload :
      Validation
      → ApplicationRecord
      → NormalizedJob
      → Provider
      → ProcessInput
      → ℕ
      → World
      → World × Ending WorkerResult
  unfolding decide
  with_payload valid a job provider input now w = decide a job provider input now w
  with_payload (invalid reason) a job provider input now w =
      let policy = deny_policy Action.send_application reason in
      let checked = (record_policy_check uuid iso "application" a.id policy now w.database).0 in
      (
        record w {
          database =
              hold uuid iso a.id "manual_review_required" "approved_submit_payload_invalid" reason
                now checked;
        },
        blocked_result a.id
            (record {
              passed = false;
              checks =
                  record { name = "approval_request_valid"; passed = false; reason = some reason }
                  ∷ [];
            })
            policy,
      )

  -- The application fails, and the error is thrown.
  give_up : ApplicationRecord → String → String → ℕ → World → World × Ending WorkerResult
  give_up a code message now w = (
    record w { database = set_status uuid iso a.id "apply_failed" none now w.database },
    worker_error code message,
  )

  with_provider :
      Provider ⊎ String
      → ApplicationRecord
      → NormalizedJob
      → ProcessInput
      → ℕ
      → World
      → World × Ending WorkerResult
  unfolding with_payload give_up
  with_provider (inr message) a job input now w = give_up a "provider_missing" message now w
  with_provider (inl provider) a job input now w =
      with_payload
        (validate_approved_submit_payload parse_time reads.approval_requests a
          input.approval_request_id input.approved_draft_hash now)
        a job provider input now w

  with_job :
      Option NormalizedJob
      → ApplicationRecord
      → ProcessInput
      → ℕ
      → World
      → World × Ending WorkerResult
  unfolding with_provider give_up
  with_job none a input now w =
      give_up a "job_missing" (concat ("Job not found: " ∷ a.job_id ∷ [])) now w
  with_job (some job) a input now w = with_provider (reads.registry a.provider_id) a job input now w

  with_application :
      Option ApplicationRecord → ProcessInput → ℕ → World → World × Ending WorkerResult
  unfolding with_job
  with_application none input now w = (
    w,
    worker_error "application_missing"
        (concat ("Application not found: " ∷ input.application_id ∷ [])),
  )
  with_application (some a) input now w = with_job (lookup a.job_id reads.jobs) a input now w

  -- `processApprovedSubmit`
  unfoldable pub process_approved_submit : ProcessInput → ℕ → World → World × Ending WorkerResult
  unfolding with_application
  process_approved_submit input now w =
      with_application (lookup input.application_id w.database.applications) input now w
