-- ===== src/ApplyWorker/Process/Once.antt =====
-- An application is sent to the provider at most once.
use telegram_job_search_auto.Common.{
  ℕ, String, Bool, true, false, not, ◌≡◌, refl, sym, ◌∙◌, ap, ◌⊎◌, inl, inr, Option, none, some,
  List, [], ◌∷◌, ◌||◌, ◌==◌, lookup, lookup-insert_self, truthy, arith, Bool-cases, Option-cases,
  or_else, leb, values, find,
}
use telegram_job_search_auto.Domain.Types.{ErrorCode, error_text}
use telegram_job_search_auto.Domain.Policy.{PolicyOutput}
use telegram_job_search_auto.Domain.Submit.{GuardResult}
use telegram_job_search_auto.Domain.Profile.{NormalizedJob}
use telegram_job_search_auto.Queue.Execute.{Ending}
use telegram_job_search_auto.Records.{ApplicationRecord, Database, ReviewInput, is_about}
use telegram_job_search_auto.Records.Applications.{
  set_application_status, record_proof_pack, link_proof,
}
use telegram_job_search_auto.Records.Reviews.{
  create_manual_review, mark_provider_needs_review, safe_mode_review, safe_mode_health,
  update_provider_health,
}
use telegram_job_search_auto.Records.Evidence.{record_policy_check, record_release_evidence}
use telegram_job_search_auto.ApplyWorker.Provider.{
  ApplicationResult, SubmitAnswer, answered, rejected_with, ApplicationDraft, SubmitStatus,
  submitted, blocked, failed, Provider, DraftAnswer, draft_valid, draft_invalid, ProcessInput,
}
use telegram_job_search_auto.ApplyWorker.Writes.{
  set_status, is_incident, mark_incidents, record_evidence, settle_status,
}
use telegram_job_search_auto.ApplyWorker.{
  Validation, valid, invalid, validate_approved_submit_payload,
}
use telegram_job_search_auto.ApplyWorker.Guard.{submit_guard}
use telegram_job_search_auto.Domain.Proof.{ProofPack}
use telegram_job_search_auto.ApplyWorker.Process.{
  Reads, World, WorkerResult, context, after_answer, submit, give_up, with_draft, decide,
  with_payload, with_provider, with_job, with_application, process_approved_submit,
}
use telegram_job_search_auto.ApplyWorker.Process.Sent.{Sum-cases, process_approved_submit-sent}

-- The statuses with which an application may be sent.
abbrev pub is_waiting : String → Bool
is_waiting status = (status == "application_prepared") || (status == "apply_queued")

-- The application is there.
abbrev Has : String → Database → Type 0
Has id db = (x : ApplicationRecord) × (lookup id db.applications ≡ some x)

-- It is there, and is not waiting to be sent.
abbrev pub IsDone : String → Database → Type 0
IsDone id db =
    (x : ApplicationRecord) × (lookup id db.applications ≡ some x) × (is_waiting x.status ≡ false)

IsDone-same :
    (id : String) (after before : Database)
    → after.applications ≡ before.applications
    → IsDone id before
    → IsDone id after
IsDone-same id after before same (x, at_x, done) = (x, rw same at_x, done)

module _ (uuid : ℕ → String) (iso : ℕ → String) where
  status-lookup :
      (id status : String) (submitted_at : Option (Option String)) (now : ℕ) (db : Database)
      → Has id db
      → (x : ApplicationRecord) × (lookup id
            (set_status uuid iso id status submitted_at now db).applications
          ≡ some x)
        × (x.status ≡ status)
  unfolding set_application_status
  status-lookup id status submitted_at now db (x, there) =
      rw (set_status, there) (_, lookup-insert_self id _ db.applications, refl)

  review-applications :
      (input : ReviewInput) (now : ℕ) (db : Database)
      → (create_manual_review uuid iso input now db).0.applications ≡ db.applications
  unfolding create_manual_review
  review-applications input now db =
      elim (Option-cases (find (is_about input) (values db.manual_review_items))) [
        | inl absent ↦ rw absent refl
        | inr (item, found) ↦ rw found refl
      ]

  mark-applications :
      (provider code id : String) (now : ℕ) (db : Database)
      → (mark_provider_needs_review uuid iso provider code id none now db).applications
        ≡ db.applications
  unfolding mark_provider_needs_review
  mark-applications provider code id now db =
      review-applications (safe_mode_review db.user_id provider code) now
        (update_provider_health (safe_mode_health provider code none (iso now)) db)

  incidents-applications :
      (codes : List ErrorCode) (provider id : String) (now : ℕ) (db : Database)
      → (mark_incidents uuid iso codes provider id now db).applications ≡ db.applications
  unfolding mark_incidents
  incidents-applications [] provider id now db = refl
  incidents-applications (code ∷ codes) provider id now db = elim (Bool-cases (is_incident code)) [
    | inl bad ↦
        rw (mark_incidents, bad)
          (incidents-applications codes provider id now _
            ∙ mark-applications provider (error_text code) id now db)
    | inr fine ↦ rw (mark_incidents, fine) (incidents-applications codes provider id now db)
  ]

  linked-Has :
      (o : Option ApplicationRecord) (key id pack : String) (db : Database)
      → key ≡ id
      → Has id db
      → Has id (link_proof uuid iso o key pack db)
  unfolding link_proof
  linked-Has none key id pack db e there = there
  linked-Has (some a) key id pack db e there = rw e (_, lookup-insert_self id _ db.applications)

  packed-Has :
      (pack : ProofPack) (id : String) (actor : Option String) (now : ℕ) (db : Database)
      → Has id db
      → Has id (record_proof_pack uuid iso pack "application" id actor now db).0
  unfolding record_proof_pack link_proof
  packed-Has pack id actor now db (x, at_x) =
      rw (record_proof_pack, at_x) (_, lookup-insert_self id _ db.applications)

module _ (trim sha256_hex : String → String) (uuid : ℕ → String) (iso : ℕ → String)
    (parse_time : String → Option ℕ) where
  evidence-applications :
      (a : ApplicationRecord) (proof_id submitted_at : String) (source : Option String)
      (ttl : Option ℕ) (now : ℕ) (db : Database)
      → (record_evidence trim sha256_hex uuid iso parse_time a proof_id submitted_at source ttl now
          db).applications
        ≡ db.applications
  unfolding record_evidence record_release_evidence
  evidence-applications a proof_id submitted_at source ttl now db =
      elim (Option-cases (parse_time submitted_at)) [
        | inl bad ↦ rw bad refl
        | inr (at, good) ↦
            rw good
              (elim (Bool-cases
                (not (truthy (trim (or_else source ""))) || leb (or_else ttl 24) 0)) [
                  | inl skipped ↦ rw skipped refl
                  | inr told ↦ rw told refl
                ])
      ]

  settled-IsDone :
      (status : SubmitStatus) (a : ApplicationRecord) (proof_id submitted_at : String)
      (input : ProcessInput) (now : ℕ) (db : Database)
      → Has a.id db
      → IsDone a.id (
          settle_status trim sha256_hex uuid iso parse_time status a proof_id submitted_at input now
            db)
  unfolding settle_status
  settled-IsDone submitted a proof_id submitted_at input now db there =
      let (x, at_x, told) =
        status-lookup uuid iso a.id "applied" (some (some submitted_at)) now db there in
      (x, rw evidence-applications at_x, rw told refl)
  settled-IsDone blocked a proof_id submitted_at input now db there =
      let (x, at_x, told) =
        status-lookup uuid iso a.id "apply_blocked_by_provider" none now db there in
      (x, at_x, rw told refl)
  settled-IsDone failed a proof_id submitted_at input now db there =
      let (x, at_x, told) = status-lookup uuid iso a.id "apply_failed" none now db there in
      (x, at_x, rw told refl)

  answered-IsDone :
      (result : ApplicationResult) (a : ApplicationRecord)
      (provider_id proof_id submitted_at : String) (input : ProcessInput) (now : ℕ) (db : Database)
      → Has a.id db
      → IsDone a.id (
          mark_incidents uuid iso result.errors provider_id a.id now (
            settle_status trim sha256_hex uuid iso parse_time result.status a proof_id submitted_at
              input now db))
  answered-IsDone result a provider_id proof_id submitted_at input now db there =
      let settled =
        settle_status trim sha256_hex uuid iso parse_time result.status a proof_id submitted_at
          input now db in
      IsDone-same a.id (mark_incidents uuid iso result.errors provider_id a.id now settled) settled
        (incidents-applications uuid iso result.errors provider_id a.id now settled)
        (settled-IsDone result.status a proof_id submitted_at input now db there)

module _ (to_lower_case trim sha256_hex : String → String) (uuid : ℕ → String) (iso : ℕ → String)
    (parse_time : String → Option ℕ) (reads : Reads)
    (build_draft : ApplicationRecord → NormalizedJob → DraftAnswer) where
  after_answer-IsDone :
      (answer : SubmitAnswer) (draft : ApplicationDraft) (a : ApplicationRecord)
      (provider : Provider) (guard : GuardResult) (policy : PolicyOutput) (input : ProcessInput)
      (submitted_at : String) (now : ℕ) (applying : Database) (w : World)
      → input.application_id ≡ a.id
      → IsDone a.id applying
      → IsDone a.id
          (after_answer to_lower_case trim sha256_hex uuid iso parse_time reads build_draft answer
            draft a provider guard policy input submitted_at now applying w).0.database
  unfolding after_answer
  after_answer-IsDone (rejected_with code message) draft a provider guard policy input submitted_at
        now applying w e done =
      done
  after_answer-IsDone (answered result) draft a provider guard policy input submitted_at now
        applying w e (x, at_x, done) =
      let packed =
        packed-Has uuid iso result.proof_pack a.id (some "worker-apply-submit") now applying
          (x, at_x) in
      answered-IsDone trim sha256_hex uuid iso parse_time result a provider.provider_id _
        submitted_at input now _ (linked-Has uuid iso _ input.application_id a.id _ _ e packed)

  submit-IsDone :
      (draft : ApplicationDraft) (a : ApplicationRecord) (provider : Provider) (guard : GuardResult)
      (policy : PolicyOutput) (input : ProcessInput) (now : ℕ) (w : World)
      → input.application_id ≡ a.id
      → Has a.id w.database
      → IsDone a.id
          (submit to_lower_case trim sha256_hex uuid iso parse_time reads build_draft draft a
            provider guard policy input now w).0.database
  unfolding submit
  submit-IsDone draft a provider guard policy input now w e there =
      let submitted_at = or_else a.submitted_at (iso now) in
      let (x, at_x, told) =
        status-lookup uuid iso a.id "applying" (some (some submitted_at)) now w.database there in
      after_answer-IsDone (provider.submit_application draft) draft a provider guard policy input
        submitted_at now
        (set_status uuid iso a.id "applying" (some (some submitted_at)) now w.database) w e
        (x, at_x, rw told refl)

  -- Nothing is sent, or the application is no longer waiting.
  abbrev Spends : String → World → World × Ending WorkerResult → Type 0
  Spends id w (after, ending) = (after.sent ≡ w.sent) ⊎ IsDone id after.database

  Spends-same :
      (key id : String) (w : World) (after : World × Ending WorkerResult)
      → key ≡ id
      → Spends id w after
      → Spends key w after
  Spends-same key id w after e h = rw e h

  drafted-Spends :
      (answer : DraftAnswer) (a : ApplicationRecord) (provider : Provider) (guard : GuardResult)
      (policy : PolicyOutput) (input : ProcessInput) (now : ℕ) (w : World)
      → input.application_id ≡ a.id
      → Has a.id w.database
      → Spends a.id w (
          with_draft to_lower_case trim sha256_hex uuid iso parse_time reads build_draft answer a
            provider guard policy input now w)
  unfolding with_draft
  drafted-Spends (draft_valid draft) a provider guard policy input now w e there =
      inr (submit-IsDone draft a provider guard policy input now w e there)
  drafted-Spends (draft_invalid reason) a provider guard policy input now w e there = inl refl

  decided-Spends :
      (a : ApplicationRecord) (job : NormalizedJob) (provider : Provider) (input : ProcessInput)
      (now : ℕ) (w : World)
      → input.application_id ≡ a.id
      → Has a.id w.database
      → Spends a.id w (
          decide to_lower_case trim sha256_hex uuid iso parse_time reads build_draft a job provider
            input now w)
  unfolding decide record_policy_check
  decided-Spends a job provider input now w e there =
      let c =
        context to_lower_case trim sha256_hex uuid iso parse_time reads build_draft a job provider
          now (update_provider_health provider.health w.database) in
      elim (Bool-cases (submit_guard parse_time c now).passed) [
        | inr closed ↦ rw closed (inl refl)
        | inl passed ↦ rw passed (
            drafted-Spends (build_draft a job) a provider _ _ input now (record w { database = _ })
              e there)
      ]

  validated-Spends :
      (answer : Validation) (a : ApplicationRecord) (job : NormalizedJob) (provider : Provider)
      (input : ProcessInput) (now : ℕ) (w : World)
      → input.application_id ≡ a.id
      → lookup input.application_id w.database.applications ≡ some a
      → Spends input.application_id w (
          with_payload to_lower_case trim sha256_hex uuid iso parse_time reads build_draft answer a
            job provider input now w)
  unfolding with_payload
  validated-Spends valid a job provider input now w e stored =
      Spends-same input.application_id a.id w
        (decide to_lower_case trim sha256_hex uuid iso parse_time reads build_draft a job provider
          input now w)
        e
        (decided-Spends a job provider input now w e
          (a, ap (λ id. lookup id w.database.applications) (sym e) ∙ stored))
  validated-Spends (invalid reason) a job provider input now w e stored = inl refl

  -- A run that sends leaves an application that is not waiting.
  process-Spends :
      (input : ProcessInput) (now : ℕ) (w : World)
      → ((a : ApplicationRecord)
          → lookup input.application_id w.database.applications ≡ some a
          → input.application_id ≡ a.id)
      → Spends input.application_id w (
          process_approved_submit to_lower_case trim sha256_hex uuid iso parse_time reads
            build_draft input now w)
  unfolding process_approved_submit with_application with_job with_provider give_up
  process-Spends input now w named =
      elim (Option-cases (lookup input.application_id w.database.applications)) [
        | inl absent ↦ rw absent (inl refl)
        | inr (a, stored) ↦ rw stored (elim (Option-cases (lookup a.job_id reads.jobs)) [
          | inl absent ↦ rw absent (inl refl)
          | inr (job, known) ↦ rw known (elim (Sum-cases (reads.registry a.provider_id)) [
            | inr (message, absent) ↦ rw absent (inl refl)
            | inl (provider, registered) ↦ rw registered (
                validated-Spends
                  (validate_approved_submit_payload parse_time reads.approval_requests a
                    input.approval_request_id input.approved_draft_hash now)
                  a job provider input now w (named a stored) stored)
          ])
        ])
      ]

clash :
    {A : Type 0} (f : A → Bool) {o : Option A} {x a : A}
    → o ≡ some x
    → o ≡ some a
    → f x ≡ false
    → f a ≡ true
    → ⊥
clash f at_x at_a closed opened = grind arith

done-stuck :
    (id : String) (db : Database) (a : ApplicationRecord)
    → IsDone id db
    → lookup id db.applications ≡ some a
    → is_waiting a.status ≡ true
    → ⊥
done-stuck id db a (x, at_x, done) at_a waiting =
    clash (λ x. is_waiting x.status) at_x at_a done waiting

module _ (to_lower_case trim sha256_hex : String → String) (uuid : ℕ → String) (iso : ℕ → String)
    (parse_time : String → Option ℕ) (reads later_reads : Reads)
    (build_draft later_build : ApplicationRecord → NormalizedJob → DraftAnswer) where
  -- Of two runs for one application, the second on what the first left, at most one calls the
  -- provider: where the first has sent a draft, the second sends nothing, whatever it reads of the
  -- other tables and at whatever time. The application is stored under its identifier.
  pub process_approved_submit-once :
      (input later_input : ProcessInput) (now later_now : ℕ) (w : World)
      → later_input.application_id ≡ input.application_id
      → ((a : ApplicationRecord)
          → lookup input.application_id w.database.applications ≡ some a
          → input.application_id ≡ a.id)
      → let after =
          (process_approved_submit to_lower_case trim sha256_hex uuid iso parse_time reads
            build_draft input now w).0 in
        let later =
          (process_approved_submit to_lower_case trim sha256_hex uuid iso parse_time later_reads
            later_build later_input later_now after).0 in
        (after.sent ≡ w.sent) ⊎ (later.sent ≡ after.sent)
  process_approved_submit-once input later_input now later_now w same named =
      let after =
        (process_approved_submit to_lower_case trim sha256_hex uuid iso parse_time reads build_draft
          input now w).0 in
      elim (process-Spends to_lower_case trim sha256_hex uuid iso parse_time reads build_draft input
        now w named) [
          | inl idle ↦ inl idle
          | inr done ↦
              elim (process_approved_submit-sent to_lower_case trim sha256_hex uuid iso parse_time
                later_reads later_build later_input later_now after) [
                  | inl (kept, told) ↦ inr kept
                  | inr (draft, sent, due, told) ↦ absurd (
                      done-stuck input.application_id after.database due.application done
                        (ap (λ id. lookup id after.database.applications) (sym same) ∙ due.stored)
                        due.can_submit.may_act.validated)
                ]
        ]
