-- ===== src/ApplyWorker/Draft.antt =====
-- apps/worker-apply/src/runner.ts: `buildApprovedApplicationDraft`.
use telegram_job_search_auto.Common.{
  ℕ, String, true, not, ◌&&◌, Option, none, some, if◌then◌else◌, or_else, truthy, truthy?, concat,
  [], ◌∷◌, inl, inr, ◌==◌, ◌≡◌, sym, ◌∙◌, ap, eq_iff, Bool-cases, same_text?,
}
use telegram_job_search_auto.Domain.Json.{Json}
use telegram_job_search_auto.Domain.Profile.{CandidateProfile, NormalizedJob}
use telegram_job_search_auto.Domain.Letters.{
  select_resume, CoverLetter, LetterStatus, passed, failed, generate_letter, DraftContent,
  make_application_draft_content_hash,
}
use telegram_job_search_auto.Records.{ApplicationRecord}
use telegram_job_search_auto.ApplyWorker.Provider.{
  ApplicationDraft, DraftAnswer, draft_valid, draft_invalid,
}

-- The content that a draft's hash is taken of.
abbrev pub content_of : ApplicationDraft → DraftContent
content_of draft = record {
  job_id = draft.job_id;
  provider_id = draft.provider_id;
  external_job_id = draft.external_job_id;
  candidate_profile_id = draft.candidate_profile_id;
  resume_id = draft.resume_id;
  cover_letter_id = draft.cover_letter_id;
  cover_letter_text = draft.cover_letter_text;
  idempotency_key = draft.idempotency_key;
}

-- The draft of an application with this resume and letter, under an identifier.
abbrev draft_with :
    ApplicationRecord → CandidateProfile → String → CoverLetter → String → ApplicationDraft
draft_with a profile resume_id letter draft_id = record {
  draft_id = draft_id;
  job_id = a.job_id;
  provider_id = a.provider_id;
  external_job_id = a.external_job_id;
  candidate_profile_id = or_else a.candidate_profile_id profile.id;
  resume_id = resume_id;
  cover_letter_id =
      or_else a.cover_letter_id (concat ("cover_" ∷ letter.job_id ∷ "_" ∷ letter.resume_id ∷ []));
  cover_letter_text = letter.text;
  status = "apply_queued";
  idempotency_key = a.idempotency_key;
  created_at = a.created_at;
}

module _ (to_lower_case sha256_hex : String → String) (stringify : Json → String)
    (show : ℕ → String) where
  abbrev pub content_hash : ApplicationDraft → String
  content_hash draft = make_application_draft_content_hash sha256_hex stringify (content_of draft)

  -- `application.draftVariantKey && draftHash !== application.draftVariantKey` is not the case.
  matching : Option String → ApplicationDraft → DraftAnswer
  matching key draft =
      if truthy? key && not (same_text? key (content_hash draft))
      then draft_invalid "approved_draft_content_hash_mismatch"
      else draft_valid (record draft { draft_id = or_else key (content_hash draft) })

  with_letter :
      LetterStatus → ApplicationRecord → CandidateProfile → String → CoverLetter → DraftAnswer
  unfolding matching
  with_letter failed a profile resume_id letter = draft_invalid "approved_draft_cover_letter_failed"
  with_letter passed a profile resume_id letter =
      matching a.draft_variant_key (draft_with a profile resume_id letter "")

  with_resume :
      Option String → ApplicationRecord → NormalizedJob → CandidateProfile → String → DraftAnswer
  unfolding with_letter
  with_resume none a job profile at = draft_invalid "approved_draft_resume_missing"
  with_resume (some resume_id) a job profile at =
      if truthy resume_id
      then (let letter = generate_letter show job profile resume_id at in
          with_letter letter.validation_status a profile resume_id letter)
      else draft_invalid "approved_draft_resume_missing"

  abbrev first_given : Option String → Option String → Option String
  first_given none other = other
  first_given (some s) other = some s

  -- `buildApprovedApplicationDraft`; `at` is the time that the letter is generated.
  unfoldable pub build_approved_draft :
      CandidateProfile → String → ApplicationRecord → NormalizedJob → DraftAnswer
  unfolding with_resume
  build_approved_draft profile at a job =
      with_resume (first_given a.resume_id (select_resume to_lower_case show job profile).resume_id)
        a job profile at

  hash_of : DraftAnswer → String
  hash_of (draft_valid draft) = content_hash draft
  hash_of (draft_invalid reason) = ""

  matching-content_hash :
      (key : String) (draft built : ApplicationDraft)
      → truthy key ≡ true
      → matching (some key) draft ≡ draft_valid built
      → content_hash built ≡ key
  unfolding matching hash_of
  matching-content_hash key draft built given e = elim (Bool-cases (key == content_hash draft)) [
    | inl same ↦
        let kept : content_hash draft ≡ content_hash built = ap hash_of (rw (given, same) at e) in
        sym kept ∙ sym ((eq_iff _ _).0 same)
    | inr other ↦ cc (rw (given, other) at e)
  ]

  letter-content_hash :
      (status : LetterStatus) (a : ApplicationRecord) (profile : CandidateProfile)
      (resume_id key : String) (letter : CoverLetter) (built : ApplicationDraft)
      → a.draft_variant_key ≡ some key
      → truthy key ≡ true
      → with_letter status a profile resume_id letter ≡ draft_valid built
      → content_hash built ≡ key
  unfolding with_letter
  letter-content_hash failed a profile resume_id key letter built named given e = cc
  letter-content_hash passed a profile resume_id key letter built named given e =
      matching-content_hash key (draft_with a profile resume_id letter "") built given
        (rw named at e)

  resume-content_hash :
      (resume : Option String) (a : ApplicationRecord) (job : NormalizedJob)
      (profile : CandidateProfile) (at key : String) (built : ApplicationDraft)
      → a.draft_variant_key ≡ some key
      → truthy key ≡ true
      → with_resume resume a job profile at ≡ draft_valid built
      → content_hash built ≡ key
  unfolding with_resume
  resume-content_hash none a job profile at key built named given e = cc
  resume-content_hash (some id) a job profile at key built named given e =
      elim (Bool-cases (truthy id)) [
        | inl there ↦
            let letter = generate_letter show job profile id at in
            letter-content_hash letter.validation_status a profile id key letter built named given
              (rw there at e)
        | inr empty ↦ cc (rw empty at e)
      ]

  -- A draft that is built for an application which names a content hash has that hash.
  pub build_approved_draft-content_hash :
      (profile : CandidateProfile) (at : String) (a : ApplicationRecord) (job : NormalizedJob)
      (key : String) (built : ApplicationDraft)
      → a.draft_variant_key ≡ some key
      → truthy key ≡ true
      → build_approved_draft profile at a job ≡ draft_valid built
      → content_hash built ≡ key
  unfolding build_approved_draft
  build_approved_draft-content_hash profile at a job key built named given e =
      resume-content_hash
        (first_given a.resume_id (select_resume to_lower_case show job profile).resume_id) a job
        profile at key built named given e
