-- ===== src/ApplyWorker/Process/Sent.antt =====
-- When the worker calls the provider.
use telegram_job_search_auto.Common.{
  ℕ, String, ◌≡◌, refl, ◌⊎◌, inl, inr, ap, Option, none, some, [], ◌∷◌, ◌++◌, lookup, Bool-cases,
  Option-cases,
}
use telegram_job_search_auto.Domain.Profile.{NormalizedJob}
use telegram_job_search_auto.Domain.Policy.{PolicyOutput}
use telegram_job_search_auto.Domain.Submit.{GuardResult}
use telegram_job_search_auto.Queue.Execute.{Ending, returned, worker_error, other_error}
use telegram_job_search_auto.Records.{ApplicationRecord, Database}
use telegram_job_search_auto.Records.Reviews.{update_provider_health}
use telegram_job_search_auto.ApplyWorker.{
  Validation, valid, invalid, validate_approved_submit_payload,
}
use telegram_job_search_auto.ApplyWorker.Approved.{
  IsApproved, validate_approved_submit_payload-valid_iff,
}
use telegram_job_search_auto.ApplyWorker.Guard.{CanSubmit, submit_guard, submit_guard-passed_iff}
use telegram_job_search_auto.ApplyWorker.Provider.{
  ApplicationDraft, SubmitStatus, blocked, SubmitAnswer, answered, rejected_with, Provider,
  DraftAnswer, draft_valid, draft_invalid, ProcessInput,
}
use telegram_job_search_auto.ApplyWorker.Process.{
  Reads, World, WorkerResult, context, after_answer, submit, give_up, with_draft, decide,
  with_payload, with_provider, with_job, with_application, process_approved_submit,
}

pub Sum-cases : {A B : Type 0} (s : A ⊎ B) → ((a : A) × (s ≡ inl a)) ⊎ ((b : B) × (s ≡ inr b))
Sum-cases (inl a) = inl (a, refl)
Sum-cases (inr b) = inr (b, refl)

-- What the worker says, where the provider has answered and where it has not been called.
abbrev pub IsTold : Ending WorkerResult → Option SubmitStatus → Type 0
IsTold (returned r) none = (r.status ≡ blocked) × (r.provider_result_status ≡ none)
IsTold (returned r) (some status) = (r.status ≡ status) × (r.provider_result_status ≡ some status)
IsTold _ answer = answer ≡ none

-- The worker says what the provider has answered, or throws the error on that it has thrown.
abbrev pub IsReported : Ending WorkerResult → SubmitAnswer → Type 0
IsReported ending (answered result) = IsTold ending (some result.status)
IsReported ending (rejected_with none message) = ending ≡ other_error message
IsReported ending (rejected_with (some code) message) = ending ≡ worker_error code message

module _ (to_lower_case trim sha256_hex : String → String) (uuid : ℕ → String) (iso : ℕ → String)
    (parse_time : String → Option ℕ) (reads : Reads)
    (build_draft : ApplicationRecord → NormalizedJob → DraftAnswer) where
  -- A draft that may go to the provider, and the grounds on which it may.
  pub record IsDue (input : ProcessInput) (now : ℕ) (w : World) (draft : ApplicationDraft)
      : Type 0 where
    pub application : ApplicationRecord
    pub job : NormalizedJob
    pub provider : Provider
    pub stored : lookup input.application_id w.database.applications ≡ some application
    pub known : lookup application.job_id reads.jobs ≡ some job
    pub registered : reads.registry application.provider_id ≡ inl provider
    pub is_approved :
        IsApproved parse_time reads.approval_requests application input.approval_request_id
          input.approved_draft_hash now
    pub can_submit :
        CanSubmit parse_time
          (context to_lower_case trim sha256_hex uuid iso parse_time reads build_draft application
            job provider now
            (update_provider_health provider.health w.database))
          now
    pub drafted : build_draft application job ≡ draft_valid draft

  -- Nothing is sent, and the worker says so; or one draft that is due is sent, and the worker says
  -- what the provider answered.
  abbrev pub SendsDue : ProcessInput → ℕ → World → World × Ending WorkerResult → Type 0
  SendsDue input now w (after, ending) =
      (after.sent ≡ w.sent) × IsTold ending none
      ⊎ ((draft : ApplicationDraft) × (after.sent ≡ w.sent ++ (draft ∷ []))
          × (due : IsDue input now w draft) × IsReported ending
              (due.provider.submit_application draft))

  answer-IsReported :
      (answer : SubmitAnswer) (draft : ApplicationDraft) (a : ApplicationRecord)
      (provider : Provider) (guard : GuardResult) (policy : PolicyOutput) (input : ProcessInput)
      (submitted_at : String) (now : ℕ) (applying : Database) (w : World)
      → let (after, ending) =
          after_answer to_lower_case trim sha256_hex uuid iso parse_time reads build_draft answer
            draft a provider guard policy input submitted_at now applying w in
        (after.sent ≡ w.sent ++ (draft ∷ [])) × IsReported ending answer
  unfolding after_answer
  answer-IsReported (answered result) draft a provider guard policy input at now applying w =
      (refl, (refl, refl))
  answer-IsReported (rejected_with none message) draft a provider guard policy input at now applying
        w =
      (refl, refl)
  answer-IsReported (rejected_with (some code) message) draft a provider guard policy input at now
        applying w =
      (refl, refl)

  -- The part from the draft on, given that a valid draft is due at this provider.
  drafted-SendsDue :
      (input : ProcessInput) (now : ℕ) (w before : World) (a : ApplicationRecord)
      (job : NormalizedJob) (provider : Provider) (answer : DraftAnswer) (guard : GuardResult)
      (policy : PolicyOutput)
      → before.sent ≡ w.sent
      → ((draft : ApplicationDraft)
          → answer ≡ draft_valid draft
          → (due : IsDue input now w draft) × (due.provider ≡ provider))
      → SendsDue input now w (
          with_draft to_lower_case trim sha256_hex uuid iso parse_time reads build_draft answer a
            provider guard policy input now before)
  unfolding with_draft submit
  drafted-SendsDue input now w before a job provider (draft_valid draft) guard policy same due =
      let (grounds, mine) = due draft refl in
      let (sent, told) =
        answer-IsReported (provider.submit_application draft) draft a provider guard policy input _
          now _ before in
      inr (draft, rw sent (ap (λ ds. ds ++ (draft ∷ [])) same), grounds, rw mine told)
  drafted-SendsDue input now w before a job provider (draft_invalid reason) guard policy same due =
      inl (same, (refl, refl))

  decide-SendsDue :
      (input : ProcessInput) (now : ℕ) (w : World) (a : ApplicationRecord) (job : NormalizedJob)
      (provider : Provider)
      → ((draft : ApplicationDraft)
          → CanSubmit parse_time
              (context to_lower_case trim sha256_hex uuid iso parse_time reads build_draft a job
                provider now
                (update_provider_health provider.health w.database))
              now
          → build_draft a job ≡ draft_valid draft
          → (due : IsDue input now w draft) × (due.provider ≡ provider))
      → SendsDue input now w (
          decide to_lower_case trim sha256_hex uuid iso parse_time reads build_draft a job provider
            input now w)
  unfolding decide
  decide-SendsDue input now w a job provider due =
      let c =
        context to_lower_case trim sha256_hex uuid iso parse_time reads build_draft a job provider
          now (update_provider_health provider.health w.database) in
      elim (Bool-cases (submit_guard parse_time c now).passed) [
        | inr failed ↦ rw failed (inl (refl, (refl, refl)))
        | inl passed ↦ rw passed (
            drafted-SendsDue input now w _ a job provider (build_draft a job) _ _ refl
              (λ draft. due draft ((submit_guard-passed_iff parse_time c now).0 passed)))
      ]

  payload-SendsDue :
      (input : ProcessInput) (now : ℕ) (w : World) (a : ApplicationRecord) (job : NormalizedJob)
      (provider : Provider) (answer : Validation)
      → (answer ≡ valid
          → (draft : ApplicationDraft)
          → CanSubmit parse_time
              (context to_lower_case trim sha256_hex uuid iso parse_time reads build_draft a job
                provider now
                (update_provider_health provider.health w.database))
              now
          → build_draft a job ≡ draft_valid draft
          → (due : IsDue input now w draft) × (due.provider ≡ provider))
      → SendsDue input now w (
          with_payload to_lower_case trim sha256_hex uuid iso parse_time reads build_draft answer a
            job provider input now w)
  unfolding with_payload
  payload-SendsDue input now w a job provider valid due =
      decide-SendsDue input now w a job provider (due refl)
  payload-SendsDue input now w a job provider (invalid reason) due = inl (refl, (refl, refl))

  -- The worker calls the provider at most once, and only with a draft that is due: its application,
  -- job and provider are there, the approval of the payload is good for it, the conditions of the
  -- policy and the guard hold, and the draft has been built anew without an objection. Where it has
  -- called the provider, it returns the answer, or throws the error on with which the provider has
  -- rejected the draft; otherwise it says that it is blocked, or throws.
  pub process_approved_submit-sent :
      (input : ProcessInput) (now : ℕ) (w : World)
      → SendsDue input now w (
          process_approved_submit to_lower_case trim sha256_hex uuid iso parse_time reads
            build_draft input now w)
  unfolding process_approved_submit with_application with_job with_provider with_payload give_up
  process_approved_submit-sent input now w =
      elim (Option-cases (lookup input.application_id w.database.applications)) [
        | inl absent ↦ rw absent (inl (refl, refl))
        | inr (a, stored) ↦ rw stored (elim (Option-cases (lookup a.job_id reads.jobs)) [
          | inl absent ↦ rw absent (inl (refl, refl))
          | inr (job, known) ↦ rw known (elim (Sum-cases (reads.registry a.provider_id)) [
            | inr (message, absent) ↦ rw absent (inl (refl, refl))
            | inl (provider, registered) ↦ rw registered (
                payload-SendsDue input now w a job provider
                  (validate_approved_submit_payload parse_time reads.approval_requests a
                    input.approval_request_id input.approved_draft_hash now)
                  (λ good draft can built. (
                    record {
                      application = a;
                      job = job;
                      provider = provider;
                      stored = stored;
                      known = known;
                      registered = registered;
                      is_approved =
                          (validate_approved_submit_payload-valid_iff parse_time
                              reads.approval_requests a input.approval_request_id
                              input.approved_draft_hash now).0
                            good;
                      can_submit = can;
                      drafted = built;
                    },
                    refl,
                  )))
          ])
        ])
      ]
