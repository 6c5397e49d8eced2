-- ===== src/Automation/Runner/Within.antt =====
-- The states that a run can come to, and the dry-run flows.
use telegram_job_search_auto.Common.{
  ℕ, String, Bool, true, not, ◌≡◌, refl, ◌⊎◌, inl, inr, ◌↔◌, Option, none, some, [], ◌∷◌, ◌&&◌,
  ◌||◌, every, includes, lookup, arith, All,
}
use telegram_job_search_auto.Automation.{FlowState, FlowDefinition}
use telegram_job_search_auto.Automation.Runner.{
  RunStatus, FlowInput, Walk, Round, is_terminal, follow, walk, run_walk,
}
use telegram_job_search_auto.Automation.Runner.Visits.{
  RoundOf, continued, stopped, finished, lost, refused, has_stop,
}
use telegram_job_search_auto.Automation.Runner.Boundary.{walk_induction}
use telegram_job_search_auto.Automation.Runner.Rounds.{every-lookup, transition_of}
use telegram_job_search_auto.Automation.Flows.{hh_dry_run_flow, robota_dry_run_flow}

abbrev leads_inside : (String → Bool) → Option String → Bool
leads_inside inside none = true
leads_inside inside (some next) = inside next

abbrev stays : (String → Bool) → FlowInput → String × FlowState → Bool
stays inside i (key, s) =
    not (inside key)
    || inside s.state_id
      && (has_stop i s || not (is_terminal s) && leads_inside inside (transition_of s))

-- A state inside either has an action before which the run stops, or is not terminal and leads to
-- a state inside.
unfoldable pub is_closed : (String → Bool) → FlowInput → Bool
is_closed inside i = every (stays inside i) i.flow.states

abbrev pub HasStayed : (String → Bool) → Walk → Type 0
HasStayed inside w =
    All (λ step. inside step.state_id ≡ true) w.steps
    × ((w.status ≡ RunStatus.succeeded) ↔ (w.reached_submit_boundary ≡ true))

abbrev pub before_submit : String → Bool
before_submit id = includes id ("search_results" ∷ "job_details" ∷ "application_form" ∷ [])

abbrev pub IsDryRun : FlowDefinition → Type 0
IsDryRun flow = (flow ≡ hh_dry_run_flow) ⊎ (flow ≡ robota_dry_run_flow)

module _ (to_lower_case : String → String) (title_matches : String → String → Bool) where
  step-HasStayed :
      (inside : String → Bool) (i : FlowInput)
      → is_closed inside i ≡ true
      → (key : String) (r : Round) (rest : String → Walk)
      → RoundOf to_lower_case title_matches i key r
      → ((next : String) → inside next ≡ true → HasStayed inside (rest next))
      → inside key ≡ true
      → HasStayed inside (follow r rest)
  unfolding follow is_closed
  step-HasStayed inside i h key _ rest (continued s used next there passed goes inner e) ih start =
      let here = every-lookup (stays inside i) i.flow.states key {s = s} h there in
      let onwards : inside next ≡ true = ground (arith, rw e at here) in
      ((ground arith, (ih next onwards).0), (ih next onwards).1)
  step-HasStayed inside i h key _ rest (stopped s used there passed stop) ih start =
      let here = every-lookup (stays inside i) i.flow.states key {s = s} h there in
      ((ground arith, tt), ground arith)
  step-HasStayed inside i h key _ rest (finished s used there passed goes last) ih start =
      let here = every-lookup (stays inside i) i.flow.states key {s = s} h there in ground arith
  step-HasStayed inside i h key _ rest (lost absent) ih start = (tt, ground arith)
  step-HasStayed inside i h key _ rest (refused s step code there e) ih start =
      let here = every-lookup (stays inside i) i.flow.states key {s = s} h there in
      ((ground arith, tt), ground arith)

  walk-HasStayed :
      (inside : String → Bool) (i : FlowInput)
      → is_closed inside i ≡ true
      → (n : ℕ) (key : String) → inside key ≡ true
      → HasStayed inside (walk to_lower_case title_matches i n key)
  unfolding walk
  walk-HasStayed inside i h =
      walk_induction to_lower_case title_matches (λ key w. inside key ≡ true → HasStayed inside w) i
        (λ key start. (tt, ground arith)) (step-HasStayed inside i h)

  -- Where the states inside are closed under the transitions that do not stop, the steps of a run that
  -- starts inside are all inside, and it succeeds exactly when it reaches the submit boundary.
  run_walk-HasStayed :
      (inside : String → Bool) (i : FlowInput)
      → is_closed inside i ≡ true
      → inside i.flow.entry_state ≡ true
      → HasStayed inside (run_walk to_lower_case title_matches i)
  unfolding run_walk
  run_walk-HasStayed inside i h start = walk-HasStayed inside i h 25 i.flow.entry_state start

  dry_run-is_closed :
      (i : FlowInput)
      → IsDryRun i.flow
      → includes "submit_application" i.stop_before_actions ≡ true
      → is_closed before_submit i ≡ true
  unfolding is_closed lookup
  dry_run-is_closed i (inl flow) stop = rw flow (ground (arith, stop))
  dry_run-is_closed i (inr flow) stop = rw flow (ground (arith, stop))

  -- A run of a dry-run flow that is to stop before the application is submitted visits no state
  -- behind the form, and succeeds exactly when it reaches the submit boundary.
  pub dry_run-stops :
      (i : FlowInput)
      → IsDryRun i.flow
      → includes "submit_application" i.stop_before_actions ≡ true
      → HasStayed before_submit (run_walk to_lower_case title_matches i)
  dry_run-stops i dry stop =
      run_walk-HasStayed before_submit i (dry_run-is_closed i dry stop)
        (elim dry [ inl hh ↦ rw hh refl | inr robota ↦ rw robota refl ])
