-- ===== src/Automation/Runner.antt =====
-- packages/automation/src/index.ts: `DeterministicFlowRunner.run`. The rounds of its loop recur on
-- how many of the 25 are left; `uuid`, `started` and `completed` are what `randomUUID` and the clock
-- give to the run.
pub mod Visits
pub mod Boundary
pub mod Within
pub mod Rounds
use telegram_job_search_auto.Common.{
  ℕ, zero, suc, String, Bool, true, false, not, Option, none, some, List, [], ◌∷◌, ◌++◌,
  if◌then◌else◌, any, find, includes, or_else, is_some, is_none, truthy, truthy?, last?, Dict,
  lookup, concat,
}
use telegram_job_search_auto.Domain.Types.{
  ErrorCode, captcha_required, page_fingerprint_mismatch, form_schema_changed, job_already_applied,
  job_closed, selector_missing, resume_not_available, cover_letter_policy_failed,
}
use telegram_job_search_auto.Domain.Proof.{ProofPack}
use telegram_job_search_auto.Automation.{
  BrowserPageSnapshot, FlowFingerprint, FlowAction, FlowState, FlowDefinition,
  SelectorRegistryEntry, MatchResult, SelectorResult, match_page, resolve_selector,
}

pub data StepStatus : Type 0 where
  succeeded failed : StepStatus

pub data RunStatus : Type 0 where
  succeeded failed manual_review_required : RunStatus

abbrev pub run_status_text : RunStatus → String
run_status_text RunStatus.succeeded = "succeeded"
run_status_text RunStatus.failed = "failed"
run_status_text manual_review_required = "manual_review_required"

pub record FlowRunStep : Type 0 where
  pub state_id : String
  pub status : StepStatus
  pub used_selectors : List String
  pub error_code : Option ErrorCode

pub record FlowInput : Type 0 where
  pub flow : FlowDefinition
  pub fingerprints : Dict FlowFingerprint
  pub selectors : Dict SelectorRegistryEntry
  pub snapshots : Dict BrowserPageSnapshot
  pub available_selectors_by_state : Dict (List String)
  pub guard_results : Option (Dict Bool)
  pub stop_before_actions : List String

-- How the run ends, and the steps that it pushes from here on.
pub record Walk : Type 0 where
  pub status : RunStatus
  pub reached_submit_boundary : Bool
  pub steps : List FlowRunStep
  pub error_code : Option ErrorCode

-- One round of the loop: the run ends in it, or goes on with the next state.
pub data Round : Type 0 where
  ends : Walk → Round
  goes_on : FlowRunStep → (next : String) → Round

pub data ActionsEnd : Type 0 where
  at_boundary : (used : List String) → ActionsEnd
  not_resolved : (used : List String) → ErrorCode → ActionsEnd
  all_done : (used : List String) → ActionsEnd

abbrev guard_errors : Dict ErrorCode
guard_errors =
    ("not_already_applied", job_already_applied)
    ∷ ("vacancy_is_active", job_closed)
    ∷ ("apply_button_exists", selector_missing)
    ∷ ("resume_available", resume_not_available)
    ∷ ("cover_letter_valid", cover_letter_policy_failed)
    ∷ ("no_captcha", captcha_required)
    ∷ ("supported_form_variant", form_schema_changed)
    ∷ []

-- `guardFailureCode`
unfoldable pub guard_failure_code : String → ErrorCode
guard_failure_code guard = or_else (lookup guard guard_errors) form_schema_changed

abbrev pub failed_step : FlowState → List String → ErrorCode → FlowRunStep
failed_step s used code = record {
  state_id = s.state_id;
  status = StepStatus.failed;
  used_selectors = used;
  error_code = some code;
}

abbrev pub passed_step : FlowState → List String → FlowRunStep
passed_step s used = record {
  state_id = s.state_id;
  status = StepStatus.succeeded;
  used_selectors = used;
  error_code = none;
}

-- `errorCode === "captcha_required" ? "manual_review_required" : "failed"`
abbrev pub failure_status : ErrorCode → RunStatus
failure_status captcha_required = manual_review_required
failure_status _ = RunStatus.failed

abbrev pub fails : RunStatus → List FlowRunStep → ErrorCode → Round
fails status steps code = ends (record {
  status = status;
  reached_submit_boundary = false;
  steps = steps;
  error_code = some code;
})

-- The selector that an action uses, added to those used before; or the code of its error.
use_selector : SelectorResult → List String → List String × Option ErrorCode
use_selector r used =
    (if truthy? r.selector then used ++ (or_else r.selector "" ∷ []) else used, r.error_code)

try_selector : FlowInput → FlowState → Option String → List String → List String × Option ErrorCode
unfolding use_selector
try_selector i s none used = (used, none)
try_selector i s (some key) used =
    if truthy key
    then use_selector
        (resolve_selector i.selectors key
          (or_else (lookup s.state_id i.available_selectors_by_state) []))
        used
    else (used, none)

-- After an action's selector: its error, or the end at the boundary, or what comes then.
after_selector : List String × Option ErrorCode → ActionsEnd → ActionsEnd
after_selector (used, some code) rest = not_resolved used code
after_selector (used, none) rest = rest

-- The loop over the actions of a state.
unfoldable pub run_actions : FlowInput → FlowState → List FlowAction → List String → ActionsEnd
unfolding after_selector try_selector use_selector
run_actions i s [] used = all_done used
run_actions i s (a ∷ actions) used =
    let tried = try_selector i s a.selector_key used in
    let rest = run_actions i s actions tried.0 in
    after_selector tried
      (if includes a.action_id i.stop_before_actions then at_boundary tried.0 else rest)

-- `input.guardResults?.[guardName] !== true`
abbrev pub guard_fails : FlowInput → String → Bool
guard_fails i guard = not (or_else (lookup guard (or_else i.guard_results [])) false)

abbrev pub last_action_id : List FlowAction → String
last_action_id actions = action_id_of (last? actions)
  where
    action_id_of : Option FlowAction → String
    action_id_of none = ""
    action_id_of (some a) = a.action_id

abbrev pub is_terminal : FlowState → Bool
is_terminal s = or_else s.terminal false

-- A state whose actions are all done.
leave : FlowState → List String → Option String → Round
leave s used next =
    if is_terminal s
    then ends (record {
      status = RunStatus.succeeded;
      reached_submit_boundary = false;
      steps = passed_step s used ∷ [];
      error_code = none;
    })
    else if truthy? next
    then goes_on (passed_step s used) (or_else next "")
    else fails RunStatus.failed (passed_step s used ∷ []) form_schema_changed

after_actions : FlowState → ActionsEnd → Round
unfolding leave
after_actions s (at_boundary used) = ends (record {
  status = RunStatus.succeeded;
  reached_submit_boundary = true;
  steps = passed_step s used ∷ [];
  error_code = none;
})
after_actions s (not_resolved used code) =
    fails RunStatus.failed (failed_step s used code ∷ []) code
after_actions s (all_done used) = leave s used (lookup (last_action_id s.actions) s.transitions)

-- `if (failedGuard)`: a guard that is the empty text counts as none.
after_guards : FlowInput → FlowState → Option String → Round
unfolding after_actions
after_guards i s failed_guard =
    if truthy? failed_guard
    then (let code = guard_failure_code (or_else failed_guard "") in
        fails (failure_status code) (failed_step s [] code ∷ []) code)
    else after_actions s (run_actions i s s.actions [])

-- A page that does not match comes with an error code.
after_match : FlowInput → FlowState → MatchResult → Round
unfolding after_guards
after_match i s r =
    if r.matched
    then after_guards i s (find (guard_fails i) s.guards)
    else (let code = or_else r.error_code page_fingerprint_mismatch in
        fails (failure_status code) (failed_step s [] code ∷ []) code)

-- The rest of the run after a round.
unfoldable pub follow : Round → (String → Walk) → Walk
follow (ends w) rest = w
follow (goes_on step next) rest = let w = rest next in record w { steps = step ∷ w.steps }

module _ (to_lower_case : String → String) (title_matches : String → String → Bool) where
  on_page : FlowInput → FlowState → Option FlowFingerprint → Option BrowserPageSnapshot → Round
  unfolding after_match
  on_page i s (some fingerprint) (some page) =
      after_match i s (match_page to_lower_case title_matches page fingerprint)
  on_page i s _ _ =
      fails RunStatus.failed (failed_step s [] page_fingerprint_mismatch ∷ [])
        page_fingerprint_mismatch

  in_state : FlowInput → Option FlowState → Round
  unfolding on_page
  in_state i none = fails RunStatus.failed [] form_schema_changed
  in_state i (some s) =
      on_page i s (lookup s.expected_fingerprint i.fingerprints) (lookup s.state_id i.snapshots)

  unfoldable pub visit : FlowInput → String → Round
  unfolding in_state
  visit i id = in_state i (lookup id i.flow.states)

  -- The loop, with the rounds that are left.
  unfoldable pub walk : FlowInput → ℕ → String → Walk
  unfolding follow
  walk i zero id = record {
    status = RunStatus.failed;
    reached_submit_boundary = false;
    steps = [];
    error_code = none;
  }
  walk i (suc n) id = follow (visit i id) (walk i n)

  unfoldable pub run_walk : FlowInput → Walk
  unfolding walk
  run_walk i = walk i 25 i.flow.entry_state

pub record FlowRunResult : Type 0 where
  pub flow_run_id : String
  pub status : RunStatus
  pub reached_submit_boundary : Bool
  pub steps : List FlowRunStep
  pub proof_pack : ProofPack
  pub error_code : Option ErrorCode

-- `result`
unfoldable pub flow_result : FlowDefinition → String → String → String → Walk → FlowRunResult
flow_result flow uuid started completed w =
    let after = λ (key : String). (if w.reached_submit_boundary then none else some key) in
    record {
      flow_run_id = uuid;
      status = w.status;
      reached_submit_boundary = w.reached_submit_boundary;
      steps = w.steps;
      proof_pack = record {
        proof_pack_id = concat ("proof_" ∷ uuid ∷ []);
        provider = flow.provider;
        account_id = "local-safe-account";
        entity_id = uuid;
        flow_id = flow.flow_id;
        flow_version = flow.version;
        selector_pack_version = flow.selector_pack_version;
        started_at = started;
        completed_at = some completed;
        pre_action_screenshot_key = some (concat ("proof/" ∷ uuid ∷ "/pre.png" ∷ []));
        post_action_screenshot_key = after (concat ("proof/" ∷ uuid ∷ "/post.png" ∷ []));
        dom_snapshot_before_key = some (concat ("proof/" ∷ uuid ∷ "/before.html" ∷ []));
        dom_snapshot_after_key = after (concat ("proof/" ∷ uuid ∷ "/after.html" ∷ []));
        confirmation_text =
            if w.reached_submit_boundary
            then some "Dry-run stopped before irreversible action"
            else none;
        confirmation_url = none;
        final_status = run_status_text w.status;
        error_code = w.error_code;
        audit_event_id = none;
      };
      error_code = w.error_code;
    }

-- `DeterministicFlowRunner.run`
unfoldable pub run_flow :
    (to_lower_case : String → String) (title_matches : String → String → Bool)
    → FlowInput
    → String
    → String
    → String
    → FlowRunResult
run_flow to_lower_case title_matches i uuid started completed =
    flow_result i.flow uuid started completed (run_walk to_lower_case title_matches i)
