-- ===== src/Records/Tests.antt =====
-- The records of the database at concrete inputs.
use telegram_job_search_auto.Common.{
  ℕ, String, ◌≡◌, none, some, [], ◌∷◌, List, ◌++◌, arith, eq_iff, lookup, values,
}
use telegram_job_search_auto.Domain.Types.{AppMode, needs_review}
use telegram_job_search_auto.Approvals.{AuditEvent}
use mathlib.Core.List.{Mem}
use telegram_job_search_auto.Records.{
  ApplicationInput, ManualReviewItem, ProviderHealth, ReviewInput, Severity, approve, Database,
}
use telegram_job_search_auto.Records.Applications.Unique
use telegram_job_search_auto.Records.Applications.Unique.{
  HasSingle, create_application-again, perform_all-HasSingle,
}
use telegram_job_search_auto.Records.Reviews.{mark_provider_needs_review}
use telegram_job_search_auto.Records.Reviews.Single
use telegram_job_search_auto.Records.Reviews.Single.{HasSingleOpen, perform_all-HasSingleOpen}
use telegram_job_search_auto.Records.Reviews.SafeMode.{
  IsAsked, IsReport, mark_provider_needs_review-safe,
}

abbrev uuid : ℕ → String
uuid n = "new"

abbrev iso : ℕ → String
iso n = "some day"

abbrev empty_database : Database
empty_database = record {
  system_mode = AppMode.full_auto_apply;
  user_id = "user-1";
  applications = [];
  proof_packs = [];
  object_artifacts = [];
  provider_health = [];
  manual_review_items = [];
  policy_checks = [];
  release_evidence = [];
  audit_events = [];
  drawn = 0;
}

abbrev application : ApplicationInput
application = record {
  user_id = some "user-1";
  job_id = "job-1";
  provider_id = "hh";
  external_job_id = "1001";
  candidate_profile_id = none;
  resume_id = none;
  cover_letter_id = none;
  status = "prepared";
  idempotency_key = "apply:u:hh:1";
  dedup_key = "d1";
  draft_variant_key = none;
  proof_pack_id = none;
  policy_decision = none;
  policy_version = none;
  submitted_at = none;
}

abbrev review : ReviewInput
review = record {
  user_id = "user-1";
  entity_type = "provider";
  entity_id = "hh";
  reason_code = "captcha_required";
  severity = Severity.high;
  recommended_action = "look";
}

perform_all-HasSingle_example : HasSingle (
    Unique.perform_all uuid iso
      ((Unique.create application, 1)
        ∷ (Unique.set_status "new" "submitted" (some (some "some day")), 2)
        ∷ (Unique.create application, 3)
        ∷ [])
      empty_database)
perform_all-HasSingle_example =
    perform_all-HasSingle uuid iso
      ((Unique.create application, 1)
        ∷ (Unique.set_status "new" "submitted" (some (some "some day")), 2)
        ∷ (Unique.create application, 3)
        ∷ [])
      empty_database (λ key. omega arith)

perform_all-HasSingleOpen_example : HasSingleOpen (
    Single.perform_all uuid iso
      ((Single.create review, 1)
        ∷ (Single.resolve "new" approve "admin" none, 2)
        ∷ (Single.mark_provider "hh" "captcha_required" "app-1" none, 3)
        ∷ [])
      empty_database)
perform_all-HasSingleOpen_example =
    perform_all-HasSingleOpen uuid iso
      ((Single.create review, 1)
        ∷ (Single.resolve "new" approve "admin" none, 2)
        ∷ (Single.mark_provider "hh" "captcha_required" "app-1" none, 3)
        ∷ [])
      empty_database (λ input. omega arith)

mark_provider_needs_review-safe_example :
    let after =
      mark_provider_needs_review uuid iso "hh" "captcha_required" "app-1" none 1 empty_database in
    ((h : ProviderHealth) × (lookup "hh" after.provider_health ≡ some h)
      × (h.status ≡ needs_review))
    × (lookup "robota" after.provider_health ≡ lookup "robota" empty_database.provider_health)
    × ((item : ManualReviewItem) × Mem item (values after.manual_review_items)
        × IsAsked empty_database "hh" "captcha_required" item)
    × ((events : List AuditEvent) × (event : AuditEvent) × (after.audit_events
          ≡ events ++ (event ∷ []))
        × IsReport "hh" "captcha_required" "app-1" event)
mark_provider_needs_review-safe_example =
    mark_provider_needs_review-safe uuid iso "hh" "robota" "captcha_required" "app-1" none 1
      empty_database (λ e. ground (arith, (eq_iff "hh" "robota").1 e))
