-- ===== src/Domain/Submit/Gates.antt =====
-- When the gates before a live submission open.
use telegram_job_search_auto.Common.{
  ℕ, ◌++◌, String, Bool, true, false, not, ◌&&◌, ◌≡◌, refl, concat, ◌↔◌, Option, none, some, List,
  [], ◌∷◌, eq_iff, is_empty, every, truthy, truthy?, or_else, arith, All, every_iff_All, All-every,
}
use telegram_job_search_auto.Domain.Types.{PolicyDecision, decision_text, allow, ProviderStatus}
use telegram_job_search_auto.Domain.Policy.{is_stable}
use telegram_job_search_auto.Domain.Submit.{
  is_at_most, Check, GuardInput, submit_boundary_reached, evaluate_guard, GateApproval, GateInput,
  evaluate_gate, approval_reasons, draft_hash_reasons, is_allow, is_boundary, DryRunState, when,
}

-- The nine facts that the guard sequence asks for.
pub record GuardHolds (i : GuardInput) : Type 0 where
  pub refetched : or_else i.refetch_passed true ≡ true
  pub authenticated : or_else i.auth_valid true ≡ true
  pub in_rate : or_else i.rate_limit_available true ≡ true
  pub policy_allows : i.policy.decision ≡ allow
  pub dry_run : i.dry_run_passed ≡ true
  pub at_boundary : or_else i.dry_run_state submit_boundary_reached ≡ submit_boundary_reached
  pub proven : i.proof_ready ≡ true
  pub keyed : truthy? i.idempotency_key ≡ true
  pub canary : i.recent_canary_passed ≡ true
  pub stable : i.provider_status ≡ ProviderStatus.stable

allow_iff : (d : PolicyDecision) → (is_allow d ≡ true) ↔ (d ≡ allow)
allow_iff d = ground arith

pub stable_iff : (s : ProviderStatus) → (is_stable s ≡ true) ↔ (s ≡ ProviderStatus.stable)
stable_iff s = ground arith

boundary_iff :
    (b : Bool) (s : DryRunState)
    → ((b && is_boundary s) ≡ true) ↔ ((b ≡ true) × (s ≡ submit_boundary_reached))
boundary_iff b s = ground arith

abbrev pub IsPassed : Check → Type 0
IsPassed c = c.passed ≡ true

pub every_passed : (cs : List Check) → (every (λ c. c.passed) cs ≡ true) ↔ All IsPassed cs
every_passed cs = (every_iff_All (λ c. c.passed) cs, All-every (λ c. c.passed) cs)

AllPassed : GuardInput → Type 0
unfolding evaluate_guard
AllPassed i = All IsPassed (evaluate_guard i).checks

guard_sound : (i : GuardInput) → AllPassed i → GuardHolds i
unfolding AllPassed
guard_sound i (refetch, (auth, (rate, (policy, (dry, (proof, (key, (canary, (stable, _))))))))) =
    record {
      refetched = refetch;
      authenticated = auth;
      in_rate = rate;
      policy_allows = (allow_iff _).0 policy;
      dry_run = ((boundary_iff _ _).0 dry).0;
      at_boundary = ((boundary_iff _ _).0 dry).1;
      proven = proof;
      keyed = key;
      canary = canary;
      stable = (stable_iff _).0 stable;
    }

guard_complete : (i : GuardInput) → GuardHolds i → AllPassed i
unfolding AllPassed
guard_complete i h = (
  h.refetched,
  (
    h.authenticated,
    (
      h.in_rate,
      (
        (allow_iff _).1 h.policy_allows,
        (
          (boundary_iff _ _).1 (h.dry_run, h.at_boundary),
          (h.proven, (h.keyed, (h.canary, ((stable_iff _).1 h.stable, tt)))),
        ),
      ),
    ),
  ),
)

-- The submit guard passes exactly when all nine facts hold (a missing flag for the re-fetch, the
-- authentication or the rate limit counts as true, a missing dry-run state as the boundary).
pub evaluate_guard-passed_iff : (i : GuardInput) → ((evaluate_guard i).passed ≡ true) ↔ GuardHolds i
unfolding evaluate_guard AllPassed
evaluate_guard-passed_iff i = (
  λ h. guard_sound i ((every_passed (evaluate_guard i).checks).0 h),
  λ h. (every_passed (evaluate_guard i).checks).1 (guard_complete i h),
)

-- An approval that lets a draft be submitted at a time.
pub record Approves (a : GateApproval) (draft_hash : String) (now : ℕ) : Type 0 where
  pub approved : a.status ≡ "approved"
  pub for_submit : a.requested_action ≡ "send_application"
  pub current : is_at_most a.expires_at now ≡ false
  pub hash_given : truthy draft_hash ≡ true
  pub same_hash : a.draft_hash ≡ some draft_hash

draft_hash_iff :
    (h : Option String) (d : String)
    → (draft_hash_reasons h d ≡ []) ↔ ((truthy d ≡ true) × (h ≡ some d))
unfolding draft_hash_reasons
draft_hash_iff none d = ground arith
draft_hash_iff (some h) d = ground (arith, eq_iff h d, eq_iff h "", eq_iff d "")

approval_iff :
    (a : GateApproval) (d : String) (now : ℕ)
    → (approval_reasons (some a) d now ≡ []) ↔ Approves a d now
unfolding approval_reasons
approval_iff a d now = ground (
  arith,
  eq_iff a.status "approved",
  eq_iff a.requested_action "send_application",
  draft_hash_iff a.draft_hash d,
)

append-eq-nil : (xs ys : List String) → (xs ++ ys ≡ []) ↔ ((xs ≡ []) × (ys ≡ []))
append-eq-nil [] ys = ground arith
append-eq-nil (x ∷ xs) ys = ground arith

empty_iff : (xs : List String) → (is_empty xs ≡ true) ↔ (xs ≡ [])
empty_iff [] = ground arith
empty_iff (x ∷ xs) = ground arith

when_iff : (b : Bool) (r : String) → (when b r ≡ []) ↔ (b ≡ false)
when_iff b r = ground arith

-- Live submission is enabled, the policy allows, and an approval is good for the current draft.
abbrev pub Opens : GateInput → ℕ → Type 0
Opens i now =
    (i.live_submit_enabled ≡ true)
    × (i.policy.decision ≡ allow)
    × ((a : GateApproval) × (i.approval_request ≡ some a) × Approves a i.current_draft_hash now)

approval_sound :
    (o : Option GateApproval) (d : String) (now : ℕ)
    → approval_reasons o d now ≡ []
    → (a : GateApproval) × (o ≡ some a) × Approves a d now
unfolding approval_reasons
approval_sound none d now h = cc
approval_sound (some a) d now h = (a, refl, (approval_iff a d now).0 h)

approval_complete :
    (o : Option GateApproval) (d : String) (now : ℕ)
    → ((a : GateApproval) × (o ≡ some a) × Approves a d now)
    → approval_reasons o d now ≡ []
approval_complete none d now h = cc h.1
approval_complete (some a) d now (b, same, h) =
    let e : a ≡ b = cc in (approval_iff a d now).1 (rw e h)

gate_sound : (i : GateInput) (now : ℕ) → (evaluate_gate i now).allowed ≡ true → Opens i now
unfolding evaluate_gate
gate_sound i now h =
    let live = when (not i.live_submit_enabled) "live_submit_disabled" in
    let approval = approval_reasons i.approval_request i.current_draft_hash now in
    let policy =
      when (not (is_allow i.policy.decision))
        (concat ("policy_" ∷ decision_text i.policy.decision ∷ [])) in
    let outer = (append-eq-nil live (approval ++ policy)).0 ((empty_iff _).0 h) in
    let inner = (append-eq-nil approval policy).0 outer.1 in
    (
      ground (arith, outer.0),
      (allow_iff _).0 (ground (arith, inner.1)),
      approval_sound i.approval_request i.current_draft_hash now inner.0,
    )

gate_complete : (i : GateInput) (now : ℕ) → Opens i now → (evaluate_gate i now).allowed ≡ true
unfolding evaluate_gate
gate_complete i now (live, policy, a) = (empty_iff _).1 (
    (append-eq-nil _ _).1 (
      rw live refl,
      (append-eq-nil _ _).1
          (approval_complete i.approval_request i.current_draft_hash now a, rw policy refl),
    ))

-- The review-first gate opens exactly when live submission is enabled, the policy allows, and there
-- is an approval of this action, not yet expired, for the draft as it is now.
pub evaluate_gate-allowed_iff :
    (i : GateInput) (now : ℕ) → ((evaluate_gate i now).allowed ≡ true) ↔ Opens i now
unfolding evaluate_gate
evaluate_gate-allowed_iff i now = (gate_sound i now, gate_complete i now)
