-- ===== src/Automation/Runner/Boundary.antt =====
-- How a run ends: at the boundary, with a captcha, or otherwise.
use telegram_job_search_auto.Common.{
  ℕ, zero, suc, String, Bool, true, false, ◌≡◌, ◌≢◌, refl, ◌⊎◌, inl, inr, ◌↔◌, none, some, List, [],
  ◌∷◌, lookup, arith,
}
use telegram_job_search_auto.Domain.Types.{ErrorCode, captcha_required, form_schema_changed}
use telegram_job_search_auto.Automation.{FlowState}
use telegram_job_search_auto.Automation.Runner.{
  RunStatus, manual_review_required, FlowRunStep, FlowInput, Walk, Round, passed_step,
  failure_status, is_terminal, last_action_id, visit, follow, walk, run_walk,
}
use telegram_job_search_auto.Automation.Runner.Visits.{
  Passed, RoundOf, continued, stopped, finished, lost, refused, visit-RoundOf, has_stop,
}

abbrev pub IsTold : Walk → Type 0
IsTold w =
    ((w.status ≡ manual_review_required) ↔ (w.error_code ≡ some captcha_required))
    × ((w.status ≡ RunStatus.succeeded) × (w.error_code ≡ none)
        ⊎ (w.status ≢ RunStatus.succeeded) × (w.reached_submit_boundary ≡ false))

module _ (to_lower_case : String → String) (title_matches : String → String → Bool) where
  -- What holds when no round is left, and is kept by each round, holds of every walk.
  pub walk_induction :
      (P : String → Walk → Type 0) (i : FlowInput)
      → ((key : String) → P key (walk to_lower_case title_matches i 0 key))
      → ((key : String) (r : Round) (rest : String → Walk)
          → RoundOf to_lower_case title_matches i key r
          → ((next : String) → P next (rest next))
          → P key (follow r rest))
      → (n : ℕ) (key : String) → P key (walk to_lower_case title_matches i n key)
  unfolding walk
  walk_induction P i base step zero key = base key
  walk_induction P i base step (suc n) key =
      step key (visit to_lower_case title_matches i key) (walk to_lower_case title_matches i n)
        (visit-RoundOf to_lower_case title_matches i key) (walk_induction P i base step n)

  -- The steps from a state on to one before whose action the run stops: each has passed its page and
  -- its guards, follows from the one before by its transition, and has no such action before the last.
  pub data Trail (i : FlowInput) : String → List FlowRunStep → Type 0 where
    halts :
        (key : String) (s : FlowState) (used : List String)
        → lookup key i.flow.states ≡ some s
        → Passed to_lower_case title_matches i s
        → has_stop i s ≡ true
        → Trail i key (passed_step s used ∷ [])
    passes :
        (key : String) (s : FlowState) (used : List String) (next : String)
        (steps : List FlowRunStep)
        → lookup key i.flow.states ≡ some s
        → Passed to_lower_case title_matches i s
        → has_stop i s ≡ false
        → is_terminal s ≡ false
        → lookup (last_action_id s.actions) s.transitions ≡ some next
        → Trail i next steps
        → Trail i key (passed_step s used ∷ steps)

  abbrev EndsWell : FlowInput → String → Walk → Type 0
  EndsWell i key w =
      (w.reached_submit_boundary ≡ false)
      ⊎ ((w.reached_submit_boundary ≡ true)
          × (w.status ≡ RunStatus.succeeded)
          × (w.error_code ≡ none)
          × Trail i key w.steps)

  step-EndsWell :
      (i : FlowInput) (key : String) (r : Round) (rest : String → Walk)
      → RoundOf to_lower_case title_matches i key r
      → ((next : String) → EndsWell i next (rest next))
      → EndsWell i key (follow r rest)
  unfolding follow
  step-EndsWell i key _ rest (continued s used next there passed goes inner e) ih = elim (ih next) [
    | inl short ↦ inl short
    | inr (reached, good, clear, trail) ↦
        inr (reached, good, clear, passes key s used next _ there passed goes inner e trail)
  ]
  step-EndsWell i key _ rest (stopped s used there passed stop) ih =
      inr (refl, refl, refl, halts key s used there passed stop)
  step-EndsWell i key _ rest (finished s used there passed goes last) ih = inl refl
  step-EndsWell i key _ rest (lost absent) ih = inl refl
  step-EndsWell i key _ rest (refused s step code there e) ih = inl refl

  walk-EndsWell :
      (i : FlowInput) (n : ℕ) (key : String)
      → EndsWell i key (walk to_lower_case title_matches i n key)
  unfolding walk
  walk-EndsWell i = walk_induction (EndsWell i) i (λ key. inl refl) (step-EndsWell i)

  -- A run that has reached the submit boundary has succeeded without an error; and its steps are a
  -- trail from the entry state: each state's page matched and its guards passed, each followed from the
  -- one before by the transition of its last action, the last is the first with an action before
  -- which the run is to stop.
  pub run_walk-Trail :
      (i : FlowInput)
      → (run_walk to_lower_case title_matches i).reached_submit_boundary ≡ true
      → ((run_walk to_lower_case title_matches i).status ≡ RunStatus.succeeded)
        × ((run_walk to_lower_case title_matches i).error_code ≡ none)
        × Trail i i.flow.entry_state (run_walk to_lower_case title_matches i).steps
  unfolding run_walk
  run_walk-Trail i h = elim (walk-EndsWell i 25 i.flow.entry_state) [
    | inl short ↦ cc (h, short)
    | inr (reached, good, clear, trail) ↦ (good, clear, trail)
  ]

  told :
      (code : ErrorCode)
      → IsTold (record {
        status = failure_status code;
        reached_submit_boundary = false;
        steps = [];
        error_code = some code;
      })
  told code = ground arith

  step-IsTold :
      (i : FlowInput) (key : String) (r : Round) (rest : String → Walk)
      → RoundOf to_lower_case title_matches i key r
      → ((next : String) → IsTold (rest next))
      → IsTold (follow r rest)
  unfolding follow
  step-IsTold i key _ rest (continued s used next there passed goes inner e) ih = ih next
  step-IsTold i key _ rest (stopped s used there passed stop) ih = ground arith
  step-IsTold i key _ rest (finished s used there passed goes last) ih = ground arith
  step-IsTold i key _ rest (lost absent) ih = told form_schema_changed
  step-IsTold i key _ rest (refused s step code there e) ih = told code

  -- A run asks for manual review exactly when its error is a captcha; when it has succeeded it has no
  -- error, and otherwise it has not reached the submit boundary.
  pub run_walk-error : (i : FlowInput) → IsTold (run_walk to_lower_case title_matches i)
  unfolding run_walk walk
  run_walk-error i =
      walk_induction (λ key w. IsTold w) i (λ key. ground arith) (step-IsTold i) 25
        i.flow.entry_state
