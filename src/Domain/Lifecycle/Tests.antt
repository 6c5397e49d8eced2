-- ===== src/Domain/Lifecycle/Tests.antt =====
-- The lifecycle at concrete inputs.
use telegram_job_search_auto.Common.{String, true, ◌≡◌, refl, List, [], ◌∷◌, includes, lookup}
use telegram_job_search_auto.Domain.Lifecycle.{can_transition}
use telegram_job_search_auto.Domain.Lifecycle.Paths.{IsRun, applied_run-queued}

abbrev run : List String
run = "manual_review_required" ∷ "apply_queued" ∷ "applying" ∷ "applied" ∷ []

abbrev queued : String
queued = "apply_queued"

run-IsRun : IsRun "application_prepared" run
unfolding can_transition lookup
run-IsRun = (refl, (refl, (refl, (refl, tt))))

applied_run-queued_example : includes "apply_queued" run ≡ true
applied_run-queued_example = applied_run-queued "application_prepared" run refl run-IsRun refl
