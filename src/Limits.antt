-- ===== src/Limits.antt =====
-- packages/db/src/rate-limits.ts: the limits computed from the history of applications and replies.
-- A timestamp is what `Date.parse` makes of its text, in milliseconds; `none` is NaN.
pub mod Rules
pub mod Windows
pub mod Assess
pub mod Tests
use telegram_job_search_auto.Common.{
  ℕ, ◌+◌, ◌-◌, ◌*◌, String, Bool, true, false, not, ◌&&◌, Option, none, some, List, [], ◌∷◌, ◌==◌,
  if◌then◌else◌, leb, ltb, nat_eq, length, keep, first?, is_empty, is_some, truthy, or_else, concat,
  includes, map, Dict, lookup, insert, same_text?,
}
use telegram_job_search_auto.Domain.Profile.{CandidateProfile, NormalizedJob}
use telegram_job_search_auto.Domain.Keys.{stable_hash}
use telegram_job_search_auto.Domain.Text.{normalized_text, normalize_limit_key}
use telegram_job_search_auto.Domain.Submit.{Timestamp}

pub record ApplicationLimitRecord : Type 0 where
  pub id : String
  pub job_id : String
  pub provider_id : String
  pub status : String
  pub created_at : Timestamp
  pub submitted_at : Option Timestamp

pub record ConversationLimitRecord : Type 0 where
  pub id : String
  pub company_name : Option String

pub record OutboundLimitRecord : Type 0 where
  pub id : String
  pub conversation_id : String
  pub status : String
  pub created_at : Timestamp

pub record RateLimitCheck : Type 0 where
  pub name : String
  pub key : String
  pub allowed : Bool
  pub limit : ℕ
  pub used : ℕ
  pub remaining : ℕ
  pub reset_at : ℕ
  pub reason : Option String

pub record RateLimitAssessment : Type 0 where
  pub allowed : Bool
  pub checks : List RateLimitCheck
  pub reasons : List String

abbrev pub hour_ms : ℕ
hour_ms = 3600000

abbrev pub day_ms : ℕ
day_ms = 24 * hour_ms

abbrev pub week_ms : ℕ
week_ms = 7 * day_ms

abbrev pub prepared_application_statuses : List String
prepared_application_statuses =
    "application_prepared" ∷ "manual_review_required" ∷ "apply_queued" ∷ "apply_dry_run_passed"
    ∷ "applying" ∷ "applied" ∷ []

abbrev pub irreversible_application_statuses : List String
irreversible_application_statuses = "apply_queued" ∷ "applying" ∷ "applied" ∷ []

abbrev pub counted_outbound_statuses : List String
counted_outbound_statuses = "queued_for_review" ∷ "dry_run_recorded" ∷ "sent" ∷ []

-- `submittedAt ?? createdAt`
abbrev pub application_timestamp : ApplicationLimitRecord → Timestamp
application_timestamp a = or_else a.submitted_at a.created_at

-- The finite timestamps that lie behind the cutoff `now - windowMs`.
unfoldable pub in_window : ℕ → ℕ → List Timestamp → List ℕ
in_window window_ms now [] = []
in_window window_ms now (none ∷ ts) = in_window window_ms now ts
in_window window_ms now (some t ∷ ts) =
    let rest = in_window window_ms now ts in if ltb now (t + window_ms) then t ∷ rest else rest

-- `.sort((left, right) => left - right)`
unfoldable pub insert_sorted : ℕ → List ℕ → List ℕ
insert_sorted x [] = x ∷ []
insert_sorted x (y ∷ ys) = let rest = insert_sorted x ys in if leb x y then x ∷ y ∷ ys else y ∷ rest

unfoldable pub sort : List ℕ → List ℕ
unfolding insert_sorted
sort [] = []
sort (x ∷ xs) = insert_sorted x (sort xs)

-- `oldest ? oldest + windowMs : now + windowMs`: a missing timestamp is falsy, and so is 0.
abbrev pub reset_time : Option ℕ → ℕ → ℕ → ℕ
reset_time none window_ms now = now + window_ms
reset_time (some t) window_ms now = if nat_eq t 0 then now + window_ms else t + window_ms

unfoldable pub build_window_check : String → String → ℕ → List Timestamp → ℕ → ℕ → RateLimitCheck
build_window_check name key limit timestamps window_ms now =
    let used_timestamps = sort (in_window window_ms now timestamps) in
    let used = length used_timestamps in
    let remaining = limit - used in
    let allowed = ltb 0 remaining in
    record {
      name = name;
      key = key;
      allowed = allowed;
      limit = limit;
      used = used;
      remaining = remaining;
      reset_at = reset_time (first? used_timestamps) window_ms now;
      reason = if allowed then none else some (concat (name ∷ "_exhausted" ∷ []));
    }

unfoldable pub summarize_checks : List RateLimitCheck → RateLimitAssessment
summarize_checks checks =
    let reasons =
      map (λ (c : RateLimitCheck). or_else c.reason (concat (c.name ∷ "_exhausted" ∷ [])))
        (keep (λ c. not c.allowed) checks) in
    record { allowed = is_empty reasons; checks = checks; reasons = reasons }

-- `new Map(items.map((item) => [item.id, item]))`: the last item of an id stands.
abbrev pub by_id {ℓ} : {A : Type ℓ} → (A → String) → Dict A → List A → Dict A
by_id id m [] = m
by_id id m (x ∷ xs) = by_id id (insert (id x) x m) xs

module _ (to_lower_case sha256_hex : String → String) where
  -- `buildDedupKey(job).companyRoleKey`
  unfoldable pub company_role_key : NormalizedJob → String
  company_role_key job = stable_hash sha256_hex (
      concat (
        normalized_text to_lower_case job.company_name
        ∷ ":"
        ∷ normalized_text to_lower_case (some job.title)
        ∷ ":"
        ∷ normalized_text to_lower_case job.seniority
        ∷ []))

  -- `normalizeLimitKey(record?.companyName)` for a record that may be missing.
  abbrev pub company_of : Option NormalizedJob → String
  company_of none = normalize_limit_key to_lower_case none
  company_of (some job) = normalize_limit_key to_lower_case job.company_name

  abbrev pub is_clone : Option NormalizedJob → String → Bool
  is_clone none group = false
  is_clone (some job) group = company_role_key job == group
