-- ===== src/ApplyWorker/Process/Tests.antt =====
-- A whole run of the apply worker at concrete inputs.
use telegram_job_search_auto.Common.{
  ℕ, String, true, ◌≡◌, refl, ap, inl, inr, Option, none, some, [], ◌∷◌, length, lookup, ◌⊎◌, ◌==◌,
  if◌then◌else◌,
}
use telegram_job_search_auto.Domain.Types.{AppMode, ProviderStatus}
use telegram_job_search_auto.Domain.Samples.{sample_profile, sample_job}
use telegram_job_search_auto.Domain.Policy.{
  shortlisted, new, check, conclude, global_check, action_checks, add_failed, push, common_checks,
}
use telegram_job_search_auto.Domain.Submit.{evaluate_guard}
use telegram_job_search_auto.Limits.{summarize_checks, build_window_check, sort, in_window}
use telegram_job_search_auto.Limits.Rules.{
  evaluate_application_rate_limits, application_checks, counted_applications,
  same_company_applications, same_clone_group_applications,
}
use telegram_job_search_auto.ApplyWorker.{
  validate_approved_submit_payload, evaluate_submit_proof, has_fresh_passed_canary,
}
use telegram_job_search_auto.ApplyWorker.Guard.{submit_guard, submit_policy}
use telegram_job_search_auto.Domain.Profile.{NormalizedJob}
use telegram_job_search_auto.Records.{ApplicationRecord, Database}
use telegram_job_search_auto.ApplyWorker.Tests.{application, request, proof, canary, at_900}
use telegram_job_search_auto.ApplyWorker.Provider.{
  ApplicationDraft, submitted, answered, Provider, DraftAnswer, draft_valid, ProcessInput,
}
use telegram_job_search_auto.ApplyWorker.Process.{Reads, World, process_approved_submit}
use telegram_job_search_auto.Domain.Json.{Json}
use telegram_job_search_auto.ApplyWorker.Process.Content.{
  process_built, IsGranted, process_built-IsGranted,
}
use telegram_job_search_auto.ApplyWorker.Process.Sent.{SendsDue, process_approved_submit-sent}
use telegram_job_search_auto.ApplyWorker.Process.Once.{process_approved_submit-once}

abbrev as_is : String → String
as_is s = s

abbrev uuid : ℕ → String
uuid n = "new"

abbrev iso : ℕ → String
iso n = "some day"

abbrev provider : Provider
provider = record {
  provider_id = "hh";
  health = record {
    provider_id = "hh";
    status = ProviderStatus.stable;
    checked_at = "some day";
    latency_ms = 1;
    message = "ok";
  };
  submit_application = λ draft. answered (record {
    status = submitted;
    provider_confirmation_id = none;
    proof_pack = record proof { proof_pack_id = "proof-2" };
    errors = [];
  });
}

abbrev reads : Reads
reads = record {
  jobs = ("job-1", sample_job) ∷ [];
  job_scores = ("job-1", shortlisted) ∷ [];
  dedup_decisions = ("job-1", new) ∷ [];
  canary_runs = canary ∷ [];
  approval_requests = ("approval-1", request) ∷ [];
  candidate_profile = sample_profile;
  registry = λ id. if id == "hh" then inl provider else inr "unknown provider";
  irreversible_actions_enabled = true;
}

abbrev build_draft : ApplicationRecord → NormalizedJob → DraftAnswer
build_draft a job = draft_valid (record {
  draft_id = "h1";
  job_id = a.job_id;
  provider_id = a.provider_id;
  external_job_id = a.external_job_id;
  candidate_profile_id = "profile-1";
  resume_id = "resume-1";
  cover_letter_id = "cover-1";
  cover_letter_text = "Hello";
  status = "apply_queued";
  idempotency_key = a.idempotency_key;
  created_at = a.created_at;
})

abbrev database : Database
database = record {
  system_mode = AppMode.full_auto_apply;
  user_id = "user-1";
  applications = ("app-1", application) ∷ [];
  proof_packs = ("proof-1", proof) ∷ [];
  object_artifacts = [];
  provider_health = [];
  manual_review_items = [];
  policy_checks = [];
  release_evidence = [];
  audit_events = [];
  drawn = 0;
}

abbrev world : World
world = record { database = database; sent = [] }

abbrev input : ProcessInput
input = record {
  application_id = "app-1";
  approval_request_id = some "approval-1";
  approved_draft_hash = some "h1";
  release_evidence_source = some "smoke";
  release_evidence_ttl_hours = none;
}

process_approved_submit-sent_example :
    SendsDue as_is as_is as_is uuid iso at_900 reads build_draft input 899 world
      (process_approved_submit as_is as_is as_is uuid iso at_900 reads build_draft input 899 world)
process_approved_submit-sent_example =
    process_approved_submit-sent as_is as_is as_is uuid iso at_900 reads build_draft input 899 world

sent_once :
    length
      (process_approved_submit as_is as_is as_is uuid iso at_900 reads build_draft input 899
        world).0.sent
    ≡ 1
unfolding process_approved_submit lookup validate_approved_submit_payload submit_guard submit_policy
    evaluate_guard evaluate_application_rate_limits summarize_checks application_checks
    build_window_check sort in_window counted_applications same_company_applications
    same_clone_group_applications check conclude global_check action_checks add_failed push
    common_checks evaluate_submit_proof has_fresh_passed_canary
sent_once = refl

abbrev one_text : Json → String
one_text value = "h1"

abbrev no_digits : ℕ → String
no_digits n = ""

process_built-IsGranted_example :
    let after =
      (process_built as_is as_is as_is one_text no_digits uuid iso at_900 reads input 899
        world).0 in
    (after.sent ≡ [])
    ⊎ ((draft : ApplicationDraft) × (after.sent ≡ draft ∷ [])
        × IsGranted as_is as_is as_is one_text no_digits uuid iso at_900 reads input 899 draft)
process_built-IsGranted_example =
    process_built-IsGranted as_is as_is as_is one_text no_digits uuid iso at_900 reads input 899
      world

id_of : Option ApplicationRecord → String
id_of none = "app-1"
id_of (some a) = a.id

stored_named :
    (a : ApplicationRecord) → lookup "app-1" world.database.applications ≡ some a → "app-1" ≡ a.id
unfolding lookup id_of
stored_named a stored = ap id_of stored

process_approved_submit-once_example :
    let after =
      (process_approved_submit as_is as_is as_is uuid iso at_900 reads build_draft input 899
        world).0 in
    let later =
      (process_approved_submit as_is as_is as_is uuid iso at_900 reads build_draft input 950
        after).0 in
    (after.sent ≡ []) ⊎ (later.sent ≡ after.sent)
process_approved_submit-once_example =
    process_approved_submit-once as_is as_is as_is uuid iso at_900 reads reads build_draft
      build_draft input input 899 950 world refl stored_named
