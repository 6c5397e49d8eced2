-- ===== src/Domain/Lifecycle.antt =====
-- packages/domain/src/services.ts: `ApplicationLifecycle`, whose table maps the text of a status to
-- the texts of those that may follow it.
pub mod Paths
pub mod Tests
use telegram_job_search_auto.Common.{
  String, Bool, true, false, Option, none, some, List, [], ◌∷◌, ◌==◌, if◌then◌else◌, includes,
  concat, Dict, lookup,
}

abbrev pub transitions : Dict (List String)
transitions =
    (
      "application_prepared",
      "manual_review_required" ∷ "apply_queued" ∷ "apply_blocked_by_policy"
          ∷ "apply_blocked_by_provider" ∷ [],
    )
    ∷ (
      "manual_review_required",
      "apply_queued" ∷ "apply_blocked_by_policy" ∷ "duplicate_prevented" ∷ [],
    )
    ∷ ("apply_queued", "apply_dry_run_passed" ∷ "applying" ∷ "apply_failed" ∷ [])
    ∷ ("apply_dry_run_passed", "applying" ∷ "manual_review_required" ∷ [])
    ∷ ("applying", "applied" ∷ "apply_failed" ∷ [])
    ∷ ("applied", [])
    ∷ ("apply_failed", "manual_review_required" ∷ [])
    ∷ ("apply_blocked_by_policy", "manual_review_required" ∷ [])
    ∷ ("apply_blocked_by_provider", "manual_review_required" ∷ [])
    ∷ ("duplicate_prevented", [])
    ∷ []

-- `list?.includes(next) ?? false`
abbrev pub includes? : String → Option (List String) → Bool
includes? next none = false
includes? next (some list) = includes next list

-- `canTransition`
unfoldable pub can_transition : String → String → Bool
can_transition current next = includes? next (lookup current transitions)

pub record Transition : Type 0 where
  pub allowed : Bool
  pub reason : Option String

-- `transition`
unfoldable pub transition_result : String → String → Transition
unfolding can_transition
transition_result current next =
    let allowed = can_transition current next in
    record {
      allowed = allowed;
      reason =
          if allowed
          then none
          else some (concat ("Invalid application transition: " ∷ current ∷ " -> " ∷ next ∷ []));
    }
