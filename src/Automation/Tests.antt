-- ===== src/Automation/Tests.antt =====
-- The browser automation at concrete inputs.
use telegram_job_search_auto.Common.{
  ℕ, String, Bool, true, false, ◌≡◌, refl, inl, none, some, [], ◌∷◌, if◌then◌else◌, lookup, ◌==◌,
  arith, text_includes,
}
use telegram_job_search_auto.Automation.{
  shows_captcha, shows_page, BrowserPageSnapshot, FlowFingerprint, match_page, resolve_selector,
}
use telegram_job_search_auto.Automation.Flows.{hh_dry_run_flow}
use telegram_job_search_auto.Automation.Runner.{
  RunStatus, FlowInput, walk, run_walk, run_actions, visit, follow,
}
use telegram_job_search_auto.Automation.Runner.Boundary.{
  Trail, IsTold, run_walk-Trail, run_walk-error,
}
use telegram_job_search_auto.Automation.Runner.Rounds.{is_ranked, IsNamed, run_walk-IsNamed}
use telegram_job_search_auto.Automation.Runner.Within.{HasStayed, before_submit, dry_run-stops}

abbrev as_is : String → String
as_is s = s

-- A title pattern without special characters, compared as it is.
abbrev has_title : String → String → Bool
has_title pattern title = text_includes pattern title

abbrev fingerprint : String → FlowFingerprint
fingerprint id = record {
  id = id;
  url_pattern = "hh";
  title_pattern = "HH";
  required_dom_anchors = "main" ∷ [];
  required_text_anchors = [];
  captcha_indicators = "captcha" ∷ [];
  captcha_dom_anchors = none;
  captcha_url_patterns = none;
}

abbrev page : BrowserPageSnapshot
page = record { url = "https://hh"; title = "HH"; text = "jobs"; dom_anchors = "main" ∷ [] }

abbrev input : FlowInput
input = record {
  flow = hh_dry_run_flow;
  fingerprints =
      ("hh_results_page", fingerprint "hh_results_page")
      ∷ ("hh_job_page", fingerprint "hh_job_page")
      ∷ ("hh_apply_form", fingerprint "hh_apply_form")
      ∷ [];
  selectors =
      ("job_card", record { primary = "a.job"; fallbacks = []; required = true })
      ∷ ("apply_button", record { primary = "a.apply"; fallbacks = []; required = true })
      ∷ ("cover_letter_textarea", record { primary = "textarea"; fallbacks = []; required = false })
      ∷ [];
  snapshots = ("search_results", page) ∷ ("job_details", page) ∷ ("application_form", page) ∷ [];
  available_selectors_by_state =
      ("search_results", "a.job" ∷ [])
      ∷ ("job_details", "a.apply" ∷ [])
      ∷ ("application_form", "a.apply" ∷ "textarea" ∷ [])
      ∷ [];
  guard_results = some (
      ("vacancy_is_active", true)
      ∷ ("not_already_applied", true)
      ∷ ("apply_button_exists", true)
      ∷ ("resume_available", true)
      ∷ ("cover_letter_valid", true)
      ∷ ("no_captcha", true)
      ∷ []);
  stop_before_actions = "submit_application" ∷ [];
}

input-reached : (run_walk as_is has_title input).reached_submit_boundary ≡ true
unfolding run_walk visit follow run_actions match_page shows_captcha shows_page resolve_selector
    lookup text_includes
input-reached = refl

abbrev rank : String → ℕ
rank id =
    if id == "search_results"
    then 4
    else if id == "job_details"
    then 3
    else if id == "application_form"
    then 2
    else if id == "submit_boundary"
    then 1
    else 0

input-is_ranked : is_ranked rank hh_dry_run_flow.states ≡ true
unfolding is_ranked lookup
input-is_ranked = refl

run_walk-Trail_example :
    ((run_walk as_is has_title input).status ≡ RunStatus.succeeded)
    × ((run_walk as_is has_title input).error_code ≡ none)
    × Trail as_is has_title input "search_results" (run_walk as_is has_title input).steps
run_walk-Trail_example = run_walk-Trail as_is has_title input input-reached

run_walk-error_example : IsTold (run_walk as_is has_title input)
run_walk-error_example = run_walk-error as_is has_title input

run_walk-IsNamed_example :
    (run_walk as_is has_title input ≡ walk as_is has_title input 30 "search_results")
    × IsNamed (run_walk as_is has_title input)
run_walk-IsNamed_example =
    run_walk-IsNamed as_is has_title rank input 30 input-is_ranked (omega arith) (omega arith)

dry_run-stops_example : HasStayed before_submit (run_walk as_is has_title input)
dry_run-stops_example = dry_run-stops as_is has_title input (inl refl) refl
