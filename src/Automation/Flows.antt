-- ===== src/Automation/Flows.antt =====
-- packages/automation/src/index.ts: `hhDryRunFlow` and `robotaDryRunFlow`.
use telegram_job_search_auto.Common.{String, true, none, some, List, [], ◌∷◌, Dict}
use telegram_job_search_auto.Automation.{FlowAction, FlowState, FlowDefinition}

abbrev action : String → FlowAction
action id = record { action_id = id; selector_key = none }

abbrev action_on : String → String → FlowAction
action_on id key = record { action_id = id; selector_key = some key }

-- A state that does not say that it is terminal.
abbrev state : String → String → List String → List FlowAction → Dict String → FlowState
state id fingerprint guards actions transitions = record {
  state_id = id;
  expected_fingerprint = fingerprint;
  guards = guards;
  actions = actions;
  transitions = transitions;
  terminal = none;
}

abbrev terminal_state : String → String → List String → FlowState
terminal_state id fingerprint guards = record {
  state_id = id;
  expected_fingerprint = fingerprint;
  guards = guards;
  actions = [];
  transitions = [];
  terminal = some true;
}

abbrev form_guards : List String
form_guards = "resume_available" ∷ "cover_letter_valid" ∷ "no_captcha" ∷ []

abbrev job_guards : List String
job_guards = "not_already_applied" ∷ "vacancy_is_active" ∷ "apply_button_exists" ∷ []

abbrev pub hh_dry_run_flow : FlowDefinition
hh_dry_run_flow = record {
  flow_id = "hh_auto_apply_v1";
  provider = "hh";
  version = "2026-05-16-v1";
  selector_pack_version = "2026-05-16-v1";
  entry_state = "search_results";
  states =
      (
        "search_results",
        state "search_results" "hh_results_page" ("vacancy_is_active" ∷ [])
            (action_on "open_job" "job_card" ∷ []) (("open_job", "job_details") ∷ []),
      )
      ∷ (
        "job_details",
        state "job_details" "hh_job_page" job_guards (action_on "click_apply" "apply_button" ∷ [])
            (("click_apply", "application_form") ∷ []),
      )
      ∷ (
        "application_form",
        state "application_form" "hh_apply_form" form_guards
            (action "select_resume"
              ∷ action_on "fill_cover_letter" "cover_letter_textarea"
              ∷ action_on "submit_application" "apply_button"
              ∷ [])
            (("submit_application", "submit_boundary") ∷ []),
      )
      ∷ (
        "submit_boundary",
        state "submit_boundary" "hh_apply_form" [] (action "dry_run_complete" ∷ [])
            (("dry_run_complete", "dry_run_complete") ∷ []),
      )
      ∷ ("dry_run_complete", terminal_state "dry_run_complete" "hh_apply_form" [])
      ∷ [];
}

abbrev pub robota_dry_run_flow : FlowDefinition
robota_dry_run_flow = record {
  flow_id = "robota_auto_apply_v1";
  provider = "robota";
  version = "2026-05-18-v1";
  selector_pack_version = "2026-05-16-v1";
  entry_state = "search_results";
  states =
      (
        "search_results",
        state "search_results" "robota_search_results" ("vacancy_is_active" ∷ [])
            (action_on "open_job" "job_card" ∷ []) (("open_job", "job_details") ∷ []),
      )
      ∷ (
        "job_details",
        state "job_details" "robota_job_page" job_guards
            (action_on "click_apply" "apply_button" ∷ [])
            (("click_apply", "application_form") ∷ []),
      )
      ∷ (
        "application_form",
        state "application_form" "robota_apply_form" form_guards
            (action "select_resume"
              ∷ action "fill_cover_letter"
              ∷ action_on "submit_application" "apply_button"
              ∷ [])
            (("submit_application", "submit_boundary") ∷ []),
      )
      ∷ (
        "unsupported_form_variant",
        terminal_state "unsupported_form_variant" "robota_apply_form"
            ("supported_form_variant" ∷ []),
      )
      ∷ (
        "submit_boundary",
        state "submit_boundary" "robota_apply_form" [] (action "dry_run_complete" ∷ [])
            (("dry_run_complete", "dry_run_complete") ∷ []),
      )
      ∷ ("dry_run_complete", terminal_state "dry_run_complete" "robota_apply_form" [])
      ∷ [];
}
