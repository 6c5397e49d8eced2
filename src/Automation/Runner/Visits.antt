-- ===== src/Automation/Runner/Visits.antt =====
-- What one round of the flow runner does, as a relation.
use telegram_job_search_auto.Common.{
  String, Bool, true, false, ◌≡◌, refl, subst, inl, inr, Option, none, some, List, [], ◌∷◌,
  if◌then◌else◌, any, every, find, includes, or_else, truthy, truthy?, lookup, arith, Bool-cases,
  Option-cases,
}
use telegram_job_search_auto.Domain.Types.{
  ErrorCode, page_fingerprint_mismatch, form_schema_changed,
}
use telegram_job_search_auto.Automation.{
  BrowserPageSnapshot, FlowFingerprint, FlowAction, FlowState, SelectorRegistryEntry, match_page,
  resolve_selector, resolve_over, select,
}
use telegram_job_search_auto.Automation.Runner.{
  RunStatus, FlowRunStep, FlowInput, Round, ends, goes_on, ActionsEnd, at_boundary, not_resolved,
  all_done, failed_step, passed_step, failure_status, fails, guard_fails, is_terminal,
  last_action_id, run_actions, try_selector, use_selector, after_selector, leave, after_actions,
  after_guards, after_match, on_page, in_state, visit,
}

-- The action is one before which the run stops.
abbrev pub stops : FlowInput → FlowAction → Bool
stops i a = includes a.action_id i.stop_before_actions

abbrev pub has_stop : FlowInput → FlowState → Bool
has_stop i s = any (stops i) s.actions

-- The code of a selector is not that of a captcha.
abbrev IsPlain : Option ErrorCode → Type 0
IsPlain none = Unit
IsPlain (some code) = failure_status code ≡ RunStatus.failed

select-IsPlain : (xs : List String) (required : Bool) → IsPlain (select xs required).error_code
unfolding select
select-IsPlain [] true = refl
select-IsPlain [] false = tt
select-IsPlain (s ∷ []) required = tt
select-IsPlain (s ∷ t ∷ ts) required = refl

resolve-IsPlain :
    (o : Option SelectorRegistryEntry) (available : List String)
    → IsPlain (resolve_over o available).error_code
unfolding resolve_over
resolve-IsPlain none available = refl
resolve-IsPlain (some entry) available = select-IsPlain _ entry.required

try-IsPlain :
    (i : FlowInput) (s : FlowState) (key : Option String) (used : List String)
    → IsPlain (try_selector i s key used).1
unfolding try_selector use_selector resolve_selector
try-IsPlain i s none used = tt
try-IsPlain i s (some key) used = elim (Bool-cases (truthy key)) [
  | inl named ↦ rw named (resolve-IsPlain (lookup key i.selectors) _)
  | inr empty ↦ rw empty tt
]

abbrev ActionsOf : FlowInput → List FlowAction → ActionsEnd → Type 0
ActionsOf i actions (at_boundary used) = any (stops i) actions ≡ true
ActionsOf i actions (all_done used) = any (stops i) actions ≡ false
ActionsOf i actions (not_resolved used code) = failure_status code ≡ RunStatus.failed

after-ActionsOf :
    (i : FlowInput) (actions : List FlowAction) (tried : List String × Option ErrorCode)
    (rest : ActionsEnd)
    → IsPlain tried.1
    → ActionsOf i actions rest
    → ActionsOf i actions (after_selector tried rest)
unfolding after_selector
after-ActionsOf i actions (used, none) rest plain h = h
after-ActionsOf i actions (used, some code) rest plain h = plain

later-ActionsOf :
    (i : FlowInput) (a : FlowAction) (actions : List FlowAction) (e : ActionsEnd)
    → stops i a ≡ false
    → ActionsOf i actions e
    → ActionsOf i (a ∷ actions) e
later-ActionsOf i a actions (at_boundary used) goes h = ground arith
later-ActionsOf i a actions (all_done used) goes h = ground arith
later-ActionsOf i a actions (not_resolved used code) goes h = h

run_actions-ActionsOf :
    (i : FlowInput) (s : FlowState) (actions : List FlowAction) (used : List String)
    → ActionsOf i actions (run_actions i s actions used)
unfolding run_actions
run_actions-ActionsOf i s [] used = refl
run_actions-ActionsOf i s (a ∷ actions) used =
    let tried = try_selector i s a.selector_key used in
    after-ActionsOf i (a ∷ actions) tried _ (try-IsPlain i s a.selector_key used)
      (elim (Bool-cases (stops i a)) [
        | inl halt ↦ rw halt (ground arith)
        | inr go ↦
            rw go (later-ActionsOf i a actions _ go (run_actions-ActionsOf i s actions tried.0))
      ])

-- A guard whose name is the empty text is not looked at, and hides those that come behind it.
abbrev pub AreNamed : List String → Type 0
AreNamed guards = every truthy guards ≡ true

module _ (to_lower_case : String → String) (title_matches : String → String → Bool) where
  -- The page of the state is there and matches its fingerprint, and no guard fails.
  pub record Passed (i : FlowInput) (s : FlowState) : Type 0 where
    pub fingerprint : FlowFingerprint
    pub page : BrowserPageSnapshot
    pub expected : lookup s.expected_fingerprint i.fingerprints ≡ some fingerprint
    pub shown : lookup s.state_id i.snapshots ≡ some page
    pub matches : (match_page to_lower_case title_matches page fingerprint).matched ≡ true
    pub guarded : truthy? (find (guard_fails i) s.guards) ≡ false

  -- What a round at the state under this key may do.
  pub data RoundOf (i : FlowInput) (key : String) : Round → Type 0 where
    continued :
        (s : FlowState) (used : List String) (next : String)
        → lookup key i.flow.states ≡ some s
        → Passed i s
        → has_stop i s ≡ false
        → is_terminal s ≡ false
        → lookup (last_action_id s.actions) s.transitions ≡ some next
        → RoundOf i key (goes_on (passed_step s used) next)
    stopped :
        (s : FlowState) (used : List String)
        → lookup key i.flow.states ≡ some s
        → Passed i s
        → has_stop i s ≡ true
        → RoundOf i key (
            ends (record {
              status = RunStatus.succeeded;
              reached_submit_boundary = true;
              steps = passed_step s used ∷ [];
              error_code = none;
            }))
    finished :
        (s : FlowState) (used : List String)
        → lookup key i.flow.states ≡ some s
        → Passed i s
        → has_stop i s ≡ false
        → is_terminal s ≡ true
        → RoundOf i key (
            ends (record {
              status = RunStatus.succeeded;
              reached_submit_boundary = false;
              steps = passed_step s used ∷ [];
              error_code = none;
            }))
    lost :
        lookup key i.flow.states ≡ none
        → RoundOf i key (fails RunStatus.failed [] form_schema_changed)
    refused :
        (s : FlowState) (step : FlowRunStep) (code : ErrorCode)
        → lookup key i.flow.states ≡ some s
        → step.state_id ≡ s.state_id
        → RoundOf i key (fails (failure_status code) (step ∷ []) code)

  leave-RoundOf :
      (i : FlowInput) (key : String) (s : FlowState) (used : List String) (next : Option String)
      → lookup key i.flow.states ≡ some s
      → Passed i s
      → has_stop i s ≡ false
      → lookup (last_action_id s.actions) s.transitions ≡ next
      → RoundOf i key (leave s used next)
  unfolding leave
  leave-RoundOf i key s used next there passed goes e = elim (Bool-cases (is_terminal s)) [
    | inl last ↦ rw last (finished s used there passed goes last)
    | inr inner ↦ rw inner (onwards next e inner)
  ]
    where
      onwards :
          (next : Option String)
          → lookup (last_action_id s.actions) s.transitions ≡ next
          → is_terminal s ≡ false
          → RoundOf i key (
              if truthy? next
              then goes_on (passed_step s used) (or_else next "")
              else fails RunStatus.failed (passed_step s used ∷ []) form_schema_changed)
      onwards none e inner = refused s (passed_step s used) form_schema_changed there refl
      onwards (some t) e inner = elim (Bool-cases (truthy t)) [
        | inl named ↦ rw named (continued s used t there passed goes inner e)
        | inr empty ↦ rw empty (refused s (passed_step s used) form_schema_changed there refl)
      ]

  actions-RoundOf :
      (i : FlowInput) (key : String) (s : FlowState) (e : ActionsEnd)
      → lookup key i.flow.states ≡ some s
      → Passed i s
      → ActionsOf i s.actions e
      → RoundOf i key (after_actions s e)
  unfolding after_actions
  actions-RoundOf i key s (at_boundary used) there passed h = stopped s used there passed h
  actions-RoundOf i key s (all_done used) there passed h =
      leave-RoundOf i key s used _ there passed h refl
  actions-RoundOf i key s (not_resolved used code) there passed h =
      subst (λ status. RoundOf i key (fails status (failed_step s used code ∷ []) code)) h
        (refused s (failed_step s used code) code there refl)

  page-RoundOf :
      (i : FlowInput) (key : String) (s : FlowState) (f : Option FlowFingerprint)
      (p : Option BrowserPageSnapshot)
      → lookup key i.flow.states ≡ some s
      → lookup s.expected_fingerprint i.fingerprints ≡ f
      → lookup s.state_id i.snapshots ≡ p
      → RoundOf i key (on_page to_lower_case title_matches i s f p)
  unfolding on_page after_match after_guards
  page-RoundOf i key s none p there ef ep =
      refused s (failed_step s [] page_fingerprint_mismatch) page_fingerprint_mismatch there refl
  page-RoundOf i key s (some f) none there ef ep =
      refused s (failed_step s [] page_fingerprint_mismatch) page_fingerprint_mismatch there refl
  page-RoundOf i key s (some f) (some p) there ef ep =
      elim (Bool-cases (match_page to_lower_case title_matches p f).matched) [
        | inr other ↦ rw other (refused s _ _ there refl)
        | inl shown ↦ rw shown (elim (Bool-cases (truthy? (find (guard_fails i) s.guards))) [
          | inl fail ↦ rw fail (refused s _ _ there refl)
          | inr clear ↦ rw clear (
              actions-RoundOf i key s _ there
                (record {
                  fingerprint = f;
                  page = p;
                  expected = ef;
                  shown = ep;
                  matches = shown;
                  guarded = clear;
                })
                (run_actions-ActionsOf i s s.actions []))
        ])
      ]

  pub visit-RoundOf :
      (i : FlowInput) (key : String) → RoundOf i key (visit to_lower_case title_matches i key)
  unfolding visit in_state
  visit-RoundOf i key = elim (Option-cases (lookup key i.flow.states)) [
    | inl absent ↦ rw absent (lost absent)
    | inr (s, there) ↦ rw there (page-RoundOf i key s _ _ there refl refl)
  ]
