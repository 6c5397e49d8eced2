-- ===== src/Automation/Runner/Rounds.antt =====
-- The 25 rounds of the loop.
use telegram_job_search_auto.Common.{
  ℕ, zero, suc, ◌<◌, ◌≤◌, String, Bool, true, ◌≡◌, refl, ap, ◌⊎◌, inl, inr, Option, none, some, [],
  ◌∷◌, every, lookup, Dict, ltb, arith, eq_iff, ◌==◌, Bool-cases,
}
use telegram_job_search_auto.Domain.Types.{ErrorCode}
use telegram_job_search_auto.Automation.{FlowState}
use telegram_job_search_auto.Automation.Runner.{
  RunStatus, FlowRunStep, FlowInput, Walk, Round, passed_step, last_action_id, follow, walk,
  run_walk,
}
use telegram_job_search_auto.Automation.Runner.Visits.{
  RoundOf, continued, stopped, finished, lost, refused, visit-RoundOf,
}

-- The transition of a state's last action, where it has one, leads to a lower rank.
falls : (String → ℕ) → ℕ → Option String → Bool
falls rank here none = true
falls rank here (some next) = ltb (rank next) here

abbrev pub transition_of : FlowState → Option String
transition_of s = lookup (last_action_id s.actions) s.transitions

-- No sequence of transitions comes back to a state: each leads to a lower rank.
unfoldable pub is_ranked : (String → ℕ) → Dict FlowState → Bool
unfolding falls
is_ranked rank states = every (λ e. falls rank (rank e.0) (transition_of e.1)) states

pub every-lookup :
    (test : String × FlowState → Bool) (states : Dict FlowState) (key : String) {s : FlowState}
    → every test states ≡ true
    → lookup key states ≡ some s
    → test (key, s) ≡ true
unfolding lookup
every-lookup test [] key h e = cc
every-lookup test ((name, t) ∷ rest) key {s} h e = elim (Bool-cases (name == key)) [
  | inl same ↦
      let first : test (name, t) ≡ true = ground arith in
      let here : t ≡ s = ground (arith, rw same at e) in
      let named : name ≡ key = (eq_iff name key).0 same in cc (first, here, named)
  | inr differ ↦ every-lookup test rest key {s = s} (ground arith) (rw differ at e)
]

abbrev pub IsNamed : Walk → Type 0
IsNamed w = (w.status ≡ RunStatus.succeeded) ⊎ ((code : ErrorCode) × (w.error_code ≡ some code))

abbrev behind : FlowRunStep → Walk → Walk
behind step w = record w { steps = step ∷ w.steps }

module _ (to_lower_case : String → String) (title_matches : String → String → Bool) where
  ranked-lt :
      (rank : String → ℕ) (i : FlowInput) (key : String) (s : FlowState) (next : String)
      → is_ranked rank i.flow.states ≡ true
      → lookup key i.flow.states ≡ some s
      → transition_of s ≡ some next
      → rank next < rank key
  unfolding is_ranked falls
  ranked-lt rank i key s next h there e =
      let here =
        every-lookup (λ e. falls rank (rank e.0) (transition_of e.1)) i.flow.states key {s = s} h
          there in
      ground (arith, rw e at here)

  follow-IsNamed :
      (i : FlowInput) (key : String) (r : Round) (a b : String → Walk)
      → RoundOf to_lower_case title_matches i key r
      → ((s : FlowState) (next : String)
          → lookup key i.flow.states ≡ some s
          → transition_of s ≡ some next
          → (a next ≡ b next) × IsNamed (a next))
      → (follow r a ≡ follow r b) × IsNamed (follow r a)
  unfolding follow
  follow-IsNamed i key _ a b (continued s used next there passed goes inner e) ih =
      let (same, named) = ih s next there e in (ap (behind (passed_step s used)) same, named)
  follow-IsNamed i key _ a b (stopped s used there passed stop) ih = (refl, inl refl)
  follow-IsNamed i key _ a b (finished s used there passed goes last) ih = (refl, inl refl)
  follow-IsNamed i key _ a b (lost absent) ih = (refl, inr (_, refl))
  follow-IsNamed i key _ a b (refused s step code there e) ih = (refl, inr (_, refl))

  pub walk-IsNamed :
      (rank : String → ℕ) (i : FlowInput)
      → is_ranked rank i.flow.states ≡ true
      → (n m : ℕ) (key : String) → rank key < n
      → rank key < m
      → (walk to_lower_case title_matches i n key ≡ walk to_lower_case title_matches i m key)
        × IsNamed (walk to_lower_case title_matches i n key)
  unfolding walk
  walk-IsNamed rank i h zero m key a b = absurd (omega arith)
  walk-IsNamed rank i h (suc n) zero key a b = absurd (omega arith)
  walk-IsNamed rank i h (suc n) (suc m) key a b =
      follow-IsNamed i key _ _ _ (visit-RoundOf to_lower_case title_matches i key)
        (λ s next there e.
          let lower = ranked-lt rank i key s next h there e in
          walk-IsNamed rank i h n m next (omega (arith, lower)) (omega (arith, lower)))

  -- Where every transition of a flow leads to a lower rank and the entry state has a rank below 25, the
  -- 25 rounds are enough: more of them give the same run, and a run that does not succeed says why.
  pub run_walk-IsNamed :
      (rank : String → ℕ) (i : FlowInput) (m : ℕ)
      → is_ranked rank i.flow.states ≡ true
      → rank i.flow.entry_state < 25
      → 25 ≤ m
      → (run_walk to_lower_case title_matches i
          ≡ walk to_lower_case title_matches i m i.flow.entry_state)
        × IsNamed (run_walk to_lower_case title_matches i)
  unfolding run_walk
  run_walk-IsNamed rank i m h low many =
      walk-IsNamed rank i h 25 m i.flow.entry_state low (omega arith)
