-- ===== src/ApplyWorker/Process/Content.antt =====
-- The worker with the draft that it builds: what is sent is what was approved.
use telegram_job_search_auto.Common.{
  ℕ, String, ◌≡◌, ◌⊎◌, inl, inr, Option, some, [], ◌∷◌, ◌++◌, lookup,
}
use telegram_job_search_auto.Domain.Json.{Json}
use telegram_job_search_auto.Domain.Profile.{NormalizedJob}
use telegram_job_search_auto.Queue.Execute.{Ending}
use telegram_job_search_auto.Approvals.{ApprovalRequest}
use telegram_job_search_auto.Records.{ApplicationRecord}
use telegram_job_search_auto.ApplyWorker.Approved.{Approves}
use telegram_job_search_auto.ApplyWorker.Provider.{ApplicationDraft, DraftAnswer, ProcessInput}
use telegram_job_search_auto.ApplyWorker.Draft.{
  content_hash, build_approved_draft, build_approved_draft-content_hash,
}
use telegram_job_search_auto.ApplyWorker.Process.{
  Reads, World, WorkerResult, process_approved_submit,
}
use telegram_job_search_auto.ApplyWorker.Process.Sent.{IsDue, process_approved_submit-sent}

module _ (to_lower_case trim sha256_hex : String → String) (stringify : Json → String)
    (show : ℕ → String) (uuid : ℕ → String) (iso : ℕ → String) (parse_time : String → Option ℕ)
    (reads : Reads) where
  abbrev pub built_at : ℕ → ApplicationRecord → NormalizedJob → DraftAnswer
  built_at now =
      build_approved_draft to_lower_case sha256_hex stringify show reads.candidate_profile (iso now)

  -- `processApprovedSubmit` with `buildApprovedApplicationDraft`.
  abbrev pub process_built : ProcessInput → ℕ → World → World × Ending WorkerResult
  process_built input now w =
      process_approved_submit to_lower_case trim sha256_hex uuid iso parse_time reads (built_at now)
        input now w

  -- A request in the database, named by the input, that is good for the content of the draft.
  pub record IsGranted (input : ProcessInput) (now : ℕ) (draft : ApplicationDraft) : Type 0 where
    pub id : String
    pub request : ApprovalRequest
    pub application : ApplicationRecord
    pub named : input.approval_request_id ≡ some id
    pub found : lookup id reads.approval_requests ≡ some request
    pub approves :
        Approves parse_time request application
          (content_hash to_lower_case sha256_hex stringify show draft)
          now
    pub agreed :
        input.approved_draft_hash
        ≡ some (content_hash to_lower_case sha256_hex stringify show draft)

  due-IsGranted :
      (input : ProcessInput) (now : ℕ) (w : World) (draft : ApplicationDraft)
      → IsDue to_lower_case trim sha256_hex uuid iso parse_time reads
          (built_at now)
          input
          now
          w
          draft
      → IsGranted input now draft
  due-IsGranted input now w draft due =
      let good = due.is_approved in
      let same =
        build_approved_draft-content_hash to_lower_case sha256_hex stringify show
          reads.candidate_profile (iso now) due.application due.job good.hash draft good.draft
          good.hash_given due.drafted in
      record {
        id = good.id;
        request = good.request;
        application = due.application;
        named = good.named;
        found = good.found;
        approves = rw same good.approves;
        agreed = rw same good.agreed;
      }

  -- What the worker sends, if it sends anything, is one draft whose content has the hash that the task
  -- carries and that an approved, unexpired request in the database was given for.
  pub process_built-IsGranted :
      (input : ProcessInput) (now : ℕ) (w : World)
      → let after = (process_built input now w).0 in
        (after.sent ≡ w.sent)
        ⊎ ((draft : ApplicationDraft) × (after.sent ≡ w.sent ++ (draft ∷ []))
            × IsGranted input now draft)
  process_built-IsGranted input now w =
      elim (process_approved_submit-sent to_lower_case trim sha256_hex uuid iso parse_time reads
        (built_at now) input now w) [
          | inl (same, told) ↦ inl same
          | inr (draft, sent, due, told) ↦ inr (draft, sent, due-IsGranted input now w draft due)
        ]
