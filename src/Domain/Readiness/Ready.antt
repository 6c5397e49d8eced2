-- ===== src/Domain/Readiness/Ready.antt =====
-- When a profile is ready for a mode.
use telegram_job_search_auto.Common.{
  String, Bool, true, false, not, ◌&&◌, ◌||◌, ◌≡◌, refl, ◌↔◌, List, [], ◌∷◌, ◌++◌, every,
  every_iff_All, All-every, is_empty, any, values, arith, inl, inr, Bool-cases,
}
use telegram_job_search_auto.Domain.Types.{AppMode, full_auto_apply}
use telegram_job_search_auto.Domain.Profile.{CandidateProfile, Resume}
use telegram_job_search_auto.Domain.Readiness.{
  Findings, require_field, warn, limits_positive, active_resumes, discloses, is_apply_mode,
  is_auto_mode, is_conversation_mode, is_full_mode, has_availability, profile_fields, apply_fields,
  consent_fields, validate_profile,
}

-- What a mode asks of a profile.
pub record IsReady (p : CandidateProfile) (mode : AppMode) : Type 0 where
  pub is_active : p.active ≡ true
  pub has_titles : is_empty p.target_titles ≡ false
  pub has_stack : is_empty p.primary_stack ≡ false
  pub limited : limits_positive p.rate_limits ≡ true
  pub has_resume : not (is_apply_mode mode) || not (is_empty (active_resumes p)) ≡ true
  pub has_provider :
      not (is_apply_mode mode)
        || any (λ (r : Resume). not (is_empty r.allowed_providers)) (active_resumes p)
      ≡ true
  pub applies : not (is_auto_mode mode) || p.user_consent.auto_apply ≡ true
  pub replies : not (is_conversation_mode mode) || p.user_consent.auto_reply ≡ true
  pub has_facts : not (is_conversation_mode mode) || any discloses (values p.facts) ≡ true
  pub schedules : not (is_full_mode mode) || p.user_consent.interview_scheduling ≡ true
  pub available : has_availability p ≡ true

empty-snoc : (xs : List String) (x : String) → is_empty (xs ++ (x ∷ [])) ≡ false
empty-snoc [] x = refl
empty-snoc (y ∷ ys) x = refl

empty-require_field :
    (c : Bool) (n m : String) (f : Findings)
    → is_empty (require_field c n m f).blockers ≡ (c && is_empty f.blockers)
unfolding require_field
empty-require_field true n m f = refl
empty-require_field false n m f = empty-snoc f.blockers m

empty-warn :
    (c : Bool) (m : String) (f : Findings) → is_empty (warn c m f).blockers ≡ is_empty f.blockers
unfolding warn
empty-warn true m f = refl
empty-warn false m f = refl

empty-apply_fields :
    (p : CandidateProfile) (mode : AppMode) (f : Findings)
    → is_empty (apply_fields p mode f).blockers ≡ (
        (not (is_apply_mode mode)
          || any (λ (r : Resume). not (is_empty r.allowed_providers)) (active_resumes p))
        && ((not (is_apply_mode mode) || not (is_empty (active_resumes p))) && is_empty f.blockers))
unfolding apply_fields
empty-apply_fields p mode f = elim (Bool-cases (is_apply_mode mode)) [
  | inl yes_mode ↦ rw yes_mode (rw (empty-require_field, empty-require_field) refl)
  | inr no_mode ↦ rw no_mode refl
]

-- The tests of the validator, the last one first.
abbrev tests : CandidateProfile → AppMode → List Bool
tests p mode =
    has_availability p
    ∷ (not (is_full_mode mode) || p.user_consent.interview_scheduling)
    ∷ (not (is_conversation_mode mode) || any discloses (values p.facts))
    ∷ (not (is_conversation_mode mode) || p.user_consent.auto_reply)
    ∷ (not (is_auto_mode mode) || p.user_consent.auto_apply)
    ∷ (not (is_apply_mode mode)
        || any (λ (r : Resume). not (is_empty r.allowed_providers)) (active_resumes p))
    ∷ (not (is_apply_mode mode) || not (is_empty (active_resumes p)))
    ∷ limits_positive p.rate_limits
    ∷ not (is_empty p.primary_stack)
    ∷ not (is_empty p.target_titles)
    ∷ p.active
    ∷ []

negated_iff : (b : Bool) → (not b ≡ true) ↔ (b ≡ false)
negated_iff b = ground arith

sound :
    (p : CandidateProfile) (mode : AppMode) → every (λ b. b) (tests p mode) ≡ true → IsReady p mode
sound p mode h =
    let (a, (b, (c, (d, (e, (f, (g, (i, (j, (k, (l, _))))))))))) =
      every_iff_All (λ b. b) (tests p mode) h in
    record {
      is_active = l;
      has_titles = (negated_iff _).0 k;
      has_stack = (negated_iff _).0 j;
      limited = i;
      has_resume = g;
      has_provider = f;
      applies = e;
      replies = d;
      has_facts = c;
      schedules = b;
      available = a;
    }

complete :
    (p : CandidateProfile) (mode : AppMode) → IsReady p mode → every (λ b. b) (tests p mode) ≡ true
complete p mode h =
    All-every (λ b. b) (tests p mode)
      (
        h.available,
        (
          h.schedules,
          (
            h.has_facts,
            (
              h.replies,
              (
                h.applies,
                (
                  h.has_provider,
                  (
                    h.has_resume,
                    (
                      h.limited,
                      (
                        (negated_iff _).1 h.has_stack,
                        ((negated_iff _).1 h.has_titles, (h.is_active, tt)),
                      ),
                    ),
                  ),
                ),
              ),
            ),
          ),
        ),
      )

-- A profile is ready for a mode exactly when it is active, has titles, a stack, positive limits and
-- availability; for a mode that applies, also an active resume and one that allows a provider; for
-- an automatic mode, the consent to apply; for a mode that converses, the consent to reply and a
-- fact that may be disclosed; and for the full mode the consent to schedule.
pub validate_profile-ready_iff :
    (p : CandidateProfile) (mode : AppMode)
    → ((validate_profile p mode).ready ≡ true) ↔ IsReady p mode
unfolding validate_profile profile_fields consent_fields
validate_profile-ready_iff p mode =
    rw
      (
        empty-require_field, empty-warn, empty-require_field, empty-require_field,
        empty-require_field, empty-require_field, empty-apply_fields, empty-warn,
        empty-require_field, empty-require_field, empty-require_field, empty-require_field,
      )
      (sound p mode, complete p mode)

-- A profile that is ready for the full mode is ready for every mode.
pub full_auto_apply-ready :
    (p : CandidateProfile) (mode : AppMode)
    → (validate_profile p full_auto_apply).ready ≡ true
    → (validate_profile p mode).ready ≡ true
full_auto_apply-ready p mode h =
    let full = (validate_profile-ready_iff p full_auto_apply).0 h in
    (validate_profile-ready_iff p mode).1 (record {
      is_active = full.is_active;
      has_titles = full.has_titles;
      has_stack = full.has_stack;
      limited = full.limited;
      available = full.available;
      has_resume = weaken _ _ full.has_resume;
      has_provider = weaken _ _ full.has_provider;
      applies = weaken _ _ full.applies;
      replies = weaken _ _ full.replies;
      has_facts = weaken _ _ full.has_facts;
      schedules = weaken _ _ full.schedules;
    })
  where
    weaken : (a b : Bool) → b ≡ true → a || b ≡ true
    weaken a b h = ground arith
