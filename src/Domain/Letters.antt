-- ===== src/Domain/Letters.antt =====
-- packages/domain/src/services.ts: `ResumeRouter`, `CoverLetterEngine.generate` with `validate` as it
-- calls it, without a job and without an expected language, and `makeApplicationDraftContentHash`.
-- A confidence is in percent; `show` is the decimal text of a number, `stringify` is `JSON.stringify`.
use Prim.Native.Char.{code}
use telegram_job_search_auto.Common.{
  ℕ, ◌+◌, ◌*◌, min, String, Bool, true, false, not, ◌&&◌, ◌||◌, Option, none, some, List, [], ◌∷◌,
  ◌++◌, map, keep, take, first?, length, if◌then◌else◌, Dict, lookup, includes, any, is_empty, leb,
  ltb, nat_eq, concat, text_includes, text_includes_any_case, after_any_case, utf16_length,
  somewhere, ◌==◌,
}
use telegram_job_search_auto.Domain.Json.{Json, str, obj, end, field}
use telegram_job_search_auto.Domain.Text.{normalized_text}
use telegram_job_search_auto.Domain.Keys.{stable_hash}
use telegram_job_search_auto.Domain.Profile.{
  CandidateProfile, NormalizedJob, Resume, Fact, Disclosure, forbidden,
  forbidden_without_user_approval, WorkFormat, remote, hybrid, office,
}

pub record ResumeRoute : Type 0 where
  pub resume_id : Option String
  pub confidence : ℕ
  pub rationale : List String

pub record ScoredResume : Type 0 where
  pub resume : Resume
  pub confidence : ℕ
  pub stack_matches : ℕ

abbrev pub is_usable : NormalizedJob → Resume → Bool
is_usable job r = r.active && includes job.source_provider r.allowed_providers

module _ (to_lower_case : String → String) where
  abbrev pub score_resume : NormalizedJob → Resume → ScoredResume
  score_resume job r =
      let text =
        normalized_text to_lower_case (some (concat (job.title ∷ " " ∷ job.description ∷ []))) in
      let matches = length (
        keep (λ skill. text_includes (normalized_text to_lower_case (some skill)) text)
          r.target_stack) in
      record {
        resume = r;
        confidence =
            (if r.language == job.language then 35 else 0)
            + min 45 (matches * 12)
            + (elim job.seniority [
              | none ↦ 20
              | some level ↦ if includes level r.target_seniority then 20 else 0
            ]);
        stack_matches = matches;
      }

-- `.sort((a, b) => b.confidence - a.confidence)`, which is stable.
unfoldable pub place : ScoredResume → List ScoredResume → List ScoredResume
place r [] = r ∷ []
place r (s ∷ rest) =
    let placed = place r rest in if leb s.confidence r.confidence then r ∷ s ∷ rest else s ∷ placed

unfoldable pub by_confidence : List ScoredResume → List ScoredResume
by_confidence [] = []
by_confidence (r ∷ rest) = place r (by_confidence rest)

module _ (to_lower_case : String → String) (show : ℕ → String) where
  route_to : Option ScoredResume → NormalizedJob → ResumeRoute
  route_to none job = record {
    resume_id = none;
    confidence = 0;
    rationale = "No active resume is available for provider" ∷ [];
  }
  route_to (some best) job = record {
    resume_id = some best.resume.resume_id;
    confidence = best.confidence;
    rationale =
        concat ("Vacancy language is " ∷ job.language ∷ [])
        ∷ concat ("Provider " ∷ job.source_provider ∷ " is allowed for resume" ∷ [])
        ∷ concat (show best.stack_matches ∷ " stack signals matched" ∷ [])
        ∷ "Resume is active and reviewed"
        ∷ [];
  }

  -- `ResumeRouter.select`
  unfoldable pub select_resume : NormalizedJob → CandidateProfile → ResumeRoute
  unfolding route_to by_confidence
  select_resume job profile =
      route_to
        (first? (
          by_confidence
            (map (score_resume to_lower_case job) (keep (is_usable job) profile.resumes))))
        job

is_word : ℕ → Bool
is_word c =
    (leb b'a' c && leb c b'z')
    || (leb b'A' c && leb c b'Z')
    || (leb b'0' c && leb c b'9')
    || nat_eq c b'_'

ends_word : Option String → Bool
unfolding is_word
ends_word none = false
ends_word (some String.[]) = true
ends_word (some (String.◌∷◌ c s)) = not (is_word (code c))

-- `/\b(i led|founded|managed a team|phd|fluent in)\b/i.test(text)`, behind a word character or not.
claims_from : Bool → String → Bool
unfolding ends_word is_word after_any_case
claims_from in_word String.[] = false
claims_from in_word (String.◌∷◌ c s) =
    (not in_word
      && any (λ phrase. ends_word (after_any_case phrase (String.◌∷◌ c s)))
          ("i led" ∷ "founded" ∷ "managed a team" ∷ "phd" ∷ "fluent in" ∷ []))
    || claims_from (is_word (code c)) s

has_char : ℕ → String → Bool
has_char sought String.[] = false
has_char sought (String.◌∷◌ c s) = nat_eq (code c) sought || has_char sought s

-- The text begins with a pair of these with something between them.
encloses : ℕ → ℕ → String → Bool
unfolding has_char
encloses opening closing (String.◌∷◌ c (String.◌∷◌ d s)) =
    nat_eq (code c) opening && not (nat_eq (code d) closing) && has_char closing s
encloses opening closing _ = false

-- `/\[[^\]]+\]|TODO|<[^>]+>/.test(text)`
has_placeholder : String → Bool
unfolding encloses somewhere
has_placeholder text =
    somewhere (encloses b'[' b']') text
    || text_includes "TODO" text
    || somewhere (encloses b'<' b'>') text

abbrev is_withheld : Disclosure → Bool
is_withheld forbidden = true
is_withheld forbidden_without_user_approval = true
is_withheld _ = false

abbrev letter_fact_flags : Dict Fact → String → List String
letter_fact_flags facts name = flags_of (lookup name facts)
  where
    flags_of : Option Fact → List String
    flags_of none =
        if includes name ("years_of_experience" ∷ "primary_stack" ∷ [])
        then []
        else concat ("unsupported_fact:" ∷ name ∷ []) ∷ []
    flags_of (some fact) =
        if is_withheld fact.disclosure then concat ("forbidden_fact:" ∷ name ∷ []) ∷ [] else []

abbrev all_letter_fact_flags : Dict Fact → List String → List String
all_letter_fact_flags facts [] = []
all_letter_fact_flags facts (name ∷ names) =
    letter_fact_flags facts name ++ all_letter_fact_flags facts names

-- `validate({ text, factsUsed, profile, maxLength })`: its risk flags.
unfoldable pub letter_flags : String → List String → CandidateProfile → ℕ → List String
unfolding has_placeholder claims_from
letter_flags text facts_used profile max_length =
    (if ltb max_length (utf16_length text) then "cover_letter_too_long" ∷ [] else [])
    ++ (if has_placeholder text then "cover_letter_contains_placeholder" ∷ [] else [])
    ++ (if claims_from false text
          && not (
              any
                (λ fact.
                  any (λ word. text_includes_any_case word fact)
                    ("lead" ∷ "management" ∷ "education" ∷ "language" ∷ []))
                facts_used)
        then "invented_claim_detected" ∷ []
        else [])
    ++ all_letter_fact_flags profile.facts facts_used

pub data LetterStatus : Type 0 where
  passed failed : LetterStatus

pub record CoverLetter : Type 0 where
  pub job_id : String
  pub resume_id : String
  pub language : String
  pub text : String
  pub facts_used : List String
  pub risk_flags : List String
  pub validation_status : LetterStatus
  pub model_version : String
  pub created_at : String

abbrev format_text : WorkFormat → String
format_text remote = "remote"
format_text hybrid = "hybrid"
format_text office = "office"
format_text WorkFormat.unknown = "unknown"

-- `texts.join(separator)`
abbrev join : String → List String → String
join separator [] = ""
join separator (s ∷ []) = s
join separator (s ∷ t ∷ ss) = concat (s ∷ separator ∷ join separator (t ∷ ss) ∷ [])

abbrev letter_facts : List String
letter_facts = "years_of_experience" ∷ "primary_stack" ∷ "current_location" ∷ []

module _ (show : ℕ → String) where
  abbrev letter_text : NormalizedJob → CandidateProfile → String
  letter_text job profile = join " " (
      concat ("Hello, I am interested in the " ∷ job.title ∷ " role." ∷ [])
      ∷ concat (
          "I have "
          ∷ show profile.years_of_experience
          ∷ " years of backend experience with "
          ∷ join ", " (take 4 profile.primary_stack)
          ∷ "."
          ∷ [])
      ∷ concat (
          "I am based in "
          ∷ profile.geography.current_location
          ∷ " and open to "
          ∷ join " or " (map format_text profile.geography.allowed_work_formats)
          ∷ " work."
          ∷ [])
      ∷ "I would be glad to discuss how my background fits the team."
      ∷ [])

  -- `CoverLetterEngine.generate` for a route with this resume; `at` is the time.
  unfoldable pub generate_letter : NormalizedJob → CandidateProfile → String → String → CoverLetter
  unfolding letter_flags
  generate_letter job profile resume_id at =
      let text = letter_text job profile in
      let flags = letter_flags text letter_facts profile 1200 in
      record {
        job_id = job.id;
        resume_id = resume_id;
        language = job.language;
        text = text;
        facts_used = letter_facts;
        risk_flags = flags;
        validation_status = if is_empty flags then passed else failed;
        model_version = "mock-local-v1";
        created_at = at;
      }

pub record DraftContent : Type 0 where
  pub job_id : String
  pub provider_id : String
  pub external_job_id : String
  pub candidate_profile_id : String
  pub resume_id : String
  pub cover_letter_id : String
  pub cover_letter_text : String
  pub idempotency_key : String

module _ (sha256_hex : String → String) (stringify : Json → String) where
  -- `makeApplicationDraftContentHash`
  unfoldable pub make_application_draft_content_hash : DraftContent → String
  make_application_draft_content_hash content = stable_hash sha256_hex (
      stringify (
        obj (
          field "candidateProfileId" (str content.candidate_profile_id) (
            field "coverLetterId" (str content.cover_letter_id) (
              field "coverLetterText" (str content.cover_letter_text) (
                field "externalJobId" (str content.external_job_id) (
                  field "idempotencyKey" (str content.idempotency_key) (
                    field "jobId" (str content.job_id) (
                      field "providerId" (str content.provider_id)
                        (field "resumeId" (str content.resume_id) end))))))))))
