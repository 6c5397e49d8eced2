-- ===== src/Domain/Submit/Controlled.antt =====
-- Controlled auto-apply: who is eligible, and what reaches the submit queue.
use telegram_job_search_auto.Common.{
  ℕ, ◌≤◌, ◌<◌, ◌%◌, String, true, false, ◌&&◌, ◌≡◌, refl, ◌↔◌, Option, none, some, List, [], ◌∷◌,
  eq_iff, is_empty, includes, arith, All, ltb, leb,
}
use telegram_job_search_auto.Domain.Types.{ProviderStatus, allow}
use telegram_job_search_auto.Domain.Policy.{
  PolicyInput, shortlisted, new, check, ScoreDecision, DedupStatus,
}
use telegram_job_search_auto.Domain.Policy.Allow.{MayAct, check-allow_iff}
use telegram_job_search_auto.Domain.Policy.Reasons.{check-allow_reasons}
use telegram_job_search_auto.Domain.Keys.{prefix, parse_hex, stable_hash}
use telegram_job_search_auto.Domain.Submit.{
  EligibilityInput, evaluate_eligibility, in_ramp, GateInput, evaluate_gate, plan, distinct,
  distinct_from, scored_shortlisted, deduped_new,
}
use telegram_job_search_auto.Domain.Submit.Gates.{
  IsPassed, every_passed, stable_iff, Opens, evaluate_gate-allowed_iff,
}

module _ (sha256_hex : String → String) where
  -- What makes an application eligible.
  pub record IsEligible (i : EligibilityInput) : Type 0 where
    pub scored : i.score_decision ≡ shortlisted
    pub high_score : 85 ≤ i.score
    pub unique : i.dedup_status ≡ new
    pub confident : 90 ≤ i.extraction_confidence
    pub no_risk : i.risk_flags ≡ []
    pub canary : i.recent_canary_passed ≡ true
    pub stable : i.provider_status ≡ ProviderStatus.stable
    pub daily : 0 < i.daily_remaining
    pub company : 0 < i.company_remaining
    pub clone_group : 0 < i.clone_group_remaining
    pub bucket :
        (n : ℕ) × (parse_hex (prefix 8 (stable_hash sha256_hex i.entity_key)) ≡ some n)
        × (n % 100 < i.ramp_percent)

score_iff :
    (d : ScoreDecision) (n : ℕ)
    → ((scored_shortlisted d && leb 85 n) ≡ true) ↔ ((d ≡ shortlisted) × (85 ≤ n))
score_iff d n = ground arith

dedup_iff : (d : DedupStatus) → (deduped_new d ≡ true) ↔ (d ≡ new)
dedup_iff d = ground arith

leb_iff : (a b : ℕ) → (leb a b ≡ true) ↔ (a ≤ b)
leb_iff a b = ground arith

ltb_iff : (a b : ℕ) → (ltb a b ≡ true) ↔ (a < b)
ltb_iff a b = ground arith

nil_iff : (xs : List String) → (is_empty xs ≡ true) ↔ (xs ≡ [])
nil_iff [] = ground arith
nil_iff (x ∷ xs) = ground arith

ramp_sound : (o : Option ℕ) (p : ℕ) → in_ramp o p ≡ true → (n : ℕ) × (o ≡ some n) × (n % 100 < p)
ramp_sound none p h = cc
ramp_sound (some n) p h = (n, refl, (ltb_iff (n % 100) p).0 h)

ramp_complete :
    (o : Option ℕ) (p : ℕ) → ((n : ℕ) × (o ≡ some n) × (n % 100 < p)) → in_ramp o p ≡ true
ramp_complete none p h = cc h.1
ramp_complete (some n) p (m, e, h) = let same : n ≡ m = cc in (ltb_iff (n % 100) p).1 (rw same h)

module _ (sha256_hex : String → String) (decimal : ℕ → String) where
  sound :
      (i : EligibilityInput)
      → All IsPassed (evaluate_eligibility sha256_hex decimal i).checks
      → IsEligible sha256_hex i
  unfolding evaluate_eligibility
  sound i (a, (b, (c, (d, (e, (f, (g, (h, (j, (k, _)))))))))) = record {
    scored = ((score_iff _ _).0 a).0;
    high_score = ((score_iff _ _).0 a).1;
    unique = (dedup_iff _).0 b;
    confident = (leb_iff _ _).0 c;
    no_risk = (nil_iff _).0 d;
    canary = e;
    stable = (stable_iff _).0 f;
    daily = (ltb_iff _ _).0 g;
    company = (ltb_iff _ _).0 h;
    clone_group = (ltb_iff _ _).0 j;
    bucket = ramp_sound _ _ k;
  }

  complete :
      (i : EligibilityInput)
      → IsEligible sha256_hex i
      → All IsPassed (evaluate_eligibility sha256_hex decimal i).checks
  unfolding evaluate_eligibility
  complete i w = (
    (score_iff _ _).1 (w.scored, w.high_score),
    (
      (dedup_iff _).1 w.unique,
      (
        (leb_iff _ _).1 w.confident,
        (
          (nil_iff _).1 w.no_risk,
          (
            w.canary,
            (
              (stable_iff _).1 w.stable,
              (
                (ltb_iff _ _).1 w.daily,
                (
                  (ltb_iff _ _).1 w.company,
                  ((ltb_iff _ _).1 w.clone_group, (ramp_complete _ _ w.bucket, tt)),
                ),
              ),
            ),
          ),
        ),
      ),
    ),
  )

  -- An application is eligible for controlled auto-apply exactly when it is shortlisted with at
  -- least 85 points, new, read with at least 90% confidence and without risk flags, the canary
  -- passed, the provider is stable, all three limits have room, and its hash bucket is below the
  -- ramp percentage.
  pub evaluate_eligibility-eligible_iff :
      (i : EligibilityInput)
      → ((evaluate_eligibility sha256_hex decimal i).eligible ≡ true) ↔ IsEligible sha256_hex i
  unfolding evaluate_eligibility
  evaluate_eligibility-eligible_iff i = (
    λ h. sound i ((every_passed (evaluate_eligibility sha256_hex decimal i).checks).0 h),
    λ h. (every_passed (evaluate_eligibility sha256_hex decimal i).checks).1 (complete i h),
  )

-- No text stands in the list, which is what a set of texts guarantees.
abbrev pub Lacks : String → List String → Type 0
Lacks s xs = includes s xs ≡ false

abbrev pub IsDistinct : List String → Type 0
IsDistinct [] = Unit
IsDistinct (x ∷ xs) = Lacks x xs × IsDistinct xs

distinct_from-Lacks :
    (s : String) (seen xs : List String) → includes s seen ≡ true → Lacks s (distinct_from seen xs)
unfolding distinct_from
distinct_from-Lacks s seen [] h = refl
distinct_from-Lacks s seen (x ∷ xs) h =
    ground (arith, distinct_from-Lacks s seen xs h, distinct_from-Lacks s (x ∷ seen) xs, eq_iff x s)

distinct_from-IsDistinct : (seen xs : List String) → IsDistinct (distinct_from seen xs)
unfolding distinct_from
distinct_from-IsDistinct seen [] = tt
distinct_from-IsDistinct seen (x ∷ xs) = ground (
  arith,
  distinct_from-IsDistinct seen xs,
  distinct_from-IsDistinct (x ∷ seen) xs,
  distinct_from-Lacks x (x ∷ seen) xs,
  eq_iff x x,
)

-- The orchestrator never repeats a reason.
plan-IsDistinct :
    (sha256_hex : String → String) (application_id : String) (i : GateInput) (now : ℕ)
    → IsDistinct (plan sha256_hex application_id i now).reasons
unfolding plan distinct
plan-IsDistinct sha256_hex application_id i now = distinct_from-IsDistinct [] _

gate_reasons :
    (i : GateInput) (now : ℕ)
    → (evaluate_gate i now).allowed ≡ true
    → (evaluate_gate i now).reasons ≡ []
unfolding evaluate_gate
gate_reasons i now h = (nil_iff _).0 h

module _ (sha256_hex : String → String) where
  -- When the orchestrator is given the policy engine's answer, a submission is enqueued only if
  -- the engine's conditions held and an approval is good for the current draft; the plan then
  -- carries no reason.
  pub plan-enqueue :
      (application_id version : String) (p : PolicyInput) (i : GateInput) (now : ℕ)
      → i.policy ≡ check version p
      → (plan sha256_hex application_id i now).enqueue ≡ true
      → MayAct p × Opens i now × ((plan sha256_hex application_id i now).reasons ≡ [])
  unfolding plan distinct distinct_from
  plan-enqueue application_id version p i now e h =
      let opens = (evaluate_gate-allowed_iff i now).0 h in
      let allowed : (check version p).decision ≡ allow = rw (← e) opens.1 in
      (
        (check-allow_iff version p).0 allowed,
        opens,
        rw (gate_reasons i now h, e, check-allow_reasons version p allowed) refl,
      )
