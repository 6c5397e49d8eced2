-- ===== src/Domain/Lifecycle/Paths.antt =====
-- What the lifecycle's table lets happen.
use telegram_job_search_auto.Common.{
  String, Bool, true, false, not, ◌||◌, ◌≡◌, inl, inr, ◌↔◌, refl, ap, none, some, List, [], ◌∷◌,
  ◌==◌, if◌then◌else◌, includes, lookup, eq_iff, arith, every, Dict, Bool-cases,
}
use telegram_job_search_auto.Domain.Lifecycle.{
  can_transition, includes?, transitions, transition_result,
}

-- The statuses allow each other one after the other, from the first on.
abbrev pub IsRun : String → List String → Type 0
IsRun s [] = Unit
IsRun s (t ∷ ts) = (can_transition s t ≡ true) × IsRun t ts

-- Where the run ends.
abbrev pub end_of : String → List String → String
end_of s [] = s
end_of s (t ∷ ts) = end_of t ts

-- The submission has been queued at least.
abbrev pub is_late : String → Bool
is_late s = includes s ("apply_queued" ∷ "apply_dry_run_passed" ∷ "applying" ∷ "applied" ∷ [])

-- If all lists with `next` belong to statuses that pass the test, so does the one that is looked up.
lookup-sources :
    (next s : String) (test : String → Bool) (table : Dict (List String))
    → every (λ e. not (includes next e.1) || test e.0) table ≡ true
    → includes? next (lookup s table) ≡ true
    → test s ≡ true
unfolding lookup
lookup-sources next s test [] h found = cc
lookup-sources next s test ((name, list) ∷ rest) h found = elim (Bool-cases (name == s)) [
  | inl same ↦
      let here : includes next list ≡ true = rw same at found in
      let passed : test name ≡ true = ground (arith) in rw (← (eq_iff name s).0 same) passed
  | inr differ ↦ lookup-sources next s test rest (ground arith) (rw differ at found)
]

can_transition-sources :
    (next s : String) (test : String → Bool)
    → every (λ e. not (includes next e.1) || test e.0) transitions ≡ true
    → can_transition s next ≡ true
    → test s ≡ true
unfolding can_transition
can_transition-sources next s test h e = lookup-sources next s test transitions h e

-- A status that only statuses behind the queue lead to.
clash :
    (next s t : String)
    → every (λ e. not (includes next e.1) || is_late e.0) transitions ≡ true
    → (next == t) ≡ true
    → is_late s ≡ false
    → can_transition s t ≡ true
    → t ≡ "apply_queued"
clash next s t h same early step =
    cc (can_transition-sources next s is_late h (rw ((eq_iff next t).0 same) step), early)

-- From a status before the queue only "apply_queued" leads to one behind it.
enters :
    (s t : String)
    → is_late s ≡ false
    → is_late t ≡ true
    → can_transition s t ≡ true
    → t ≡ "apply_queued"
enters s t early late step = elim (Bool-cases ("apply_dry_run_passed" == t)) [
  | inl passed ↦ clash "apply_dry_run_passed" s t refl passed early step
  | inr a ↦ elim (Bool-cases ("applying" == t)) [
    | inl applying ↦ clash "applying" s t refl applying early step
    | inr b ↦ elim (Bool-cases ("applied" == t)) [
      | inl applied ↦ clash "applied" s t refl applied early step
      | inr c ↦ ground (arith, eq_iff "apply_queued" t)
    ]
  ]
]

-- A run of allowed transitions that starts at a status before the queue and ends at "applied" goes
-- through "apply_queued".
pub applied_run-queued :
    (s : String) (ts : List String)
    → is_late s ≡ false
    → IsRun s ts
    → end_of s ts ≡ "applied"
    → includes "apply_queued" ts ≡ true
applied_run-queued s [] early run e = cc (ap is_late e, early)
applied_run-queued s (t ∷ ts) early (step, run) e = elim (Bool-cases (is_late t)) [
  | inl late ↦
      let queued = (eq_iff t "apply_queued").1 (enters s t early late step) in rw queued refl
  | inr still ↦ let rest = applied_run-queued t ts still run e in ground (arith, rest)
]

reason_iff : (b : Bool) (r : String) → ((if b then none else some r) ≡ none) ↔ (b ≡ true)
reason_iff true r = ground arith
reason_iff false r = ground arith

-- Nothing may follow "applied" or "duplicate_prevented", and only "applying" leads to "applied"; a
-- refused transition, and no other, has a reason.
pub transition-ends :
    (s t : String)
    → (can_transition "applied" t ≡ false)
      × (can_transition "duplicate_prevented" t ≡ false)
      × ((can_transition s "applied" ≡ true) ↔ (s ≡ "applying"))
      × (((transition_result s t).reason ≡ none) ↔ (can_transition s t ≡ true))
unfolding transition_result can_transition lookup
transition-ends s t = (
  refl,
  refl,
  (
    λ h. (eq_iff s "applying").0 (can_transition-sources "applied" s (λ x. x == "applying") refl h),
    λ e. rw e refl,
  ),
  reason_iff (can_transition s t) _,
)
