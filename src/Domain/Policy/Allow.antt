-- ===== src/Domain/Policy/Allow.antt =====
-- When `PolicyEngine.check` allows an action, denies it, or leaves it to the user.
use telegram_job_search_auto.Common.{
  String, Bool, true, false, not, ◌&&◌, ◌||◌, ◌≡◌, ◌≢◌, refl, ◌↔◌, inl, inr, Option, none, some,
  List, [], ◌∷◌, ◌++◌, is_empty, keep, any, truthy, truthy?, arith, ◌≤◌, Bool-cases,
}
use telegram_job_search_auto.Domain.Types.{AppMode, ProviderStatus, Action, allow}
use telegram_job_search_auto.Domain.Policy.{
  PolicyCheck, PolicyInput, Trail, push, add_failed, common_checks, application_checks,
  reply_checks, scheduling_checks, action_checks, global_check, conclude, check, is_hard_failed,
  is_paused, is_stable, is_shortlisted, is_new, forbids_submit, is_review_first, allows_reply,
  is_confident, asks_sensitive, is_confirmed, proof_complete, shortlisted, new, Classification,
  Scheduling, confirm_slot,
}

-- Whether a hard check has failed so far.
abbrev pub denies : Trail → Bool
denies t = any is_hard_failed t.checks

pub any-append :
    (p : PolicyCheck → Bool) (xs ys : List PolicyCheck) → any p (xs ++ ys) ≡ (any p xs || any p ys)
any-append p [] ys = refl
any-append p (x ∷ xs) ys = ground (arith, any-append p xs ys)

pub keep-any :
    (p : PolicyCheck → Bool) (xs : List PolicyCheck) → not (is_empty (keep p xs)) ≡ any p xs
keep-any p [] = refl
keep-any p (x ∷ xs) = ground (arith, keep-any p xs)

denies-push :
    (name : String) (ok : Bool) (reason : String) (t : Trail)
    → denies (push name ok reason t) ≡ (denies t || not ok)
unfolding push
denies-push name ok reason t = rw any-append (ground arith)

denies-add_failed : (name reason : String) (t : Trail) → denies (add_failed name reason t) ≡ true
unfolding add_failed
denies-add_failed name reason t = rw any-append (ground arith)

denies-global_check : (i : PolicyInput) (t : Trail) → denies (global_check i t) ≡ denies t
unfolding global_check
denies-global_check i t = elim (Bool-cases i.irreversible_actions_enabled) [
  | inl on ↦ rw on refl
  | inr off ↦ rw off (rw any-append (ground arith))
]

-- What every action needs.
abbrev pub meets_common : PolicyInput → Bool
meets_common i =
    not (is_paused i.mode)
    && truthy? i.idempotency_key
    && i.proof_ready
    && i.validation_passed
    && is_stable i.provider_status
    && i.rate_limit_available

denies-common : (i : PolicyInput) → denies (common_checks i) ≡ not (meets_common i)
unfolding common_checks
denies-common i =
    rw (denies-push, denies-push, denies-push, denies-push, denies-push, denies-push) (ground arith)

abbrev pub meets_action : Action → PolicyInput → Bool
meets_action Action.send_application i =
    i.candidate_profile.user_consent.auto_apply
    && is_shortlisted i.score
    && is_new i.dedup_decision
    && not (forbids_submit i.mode)
meets_action Action.send_recruiter_reply i =
    i.candidate_profile.user_consent.auto_reply
    && allows_reply i.message_classification
    && is_confident i.message_classification
    && not (asks_sensitive i.message_classification)
meets_action Action.confirm_interview_slot i =
    i.candidate_profile.user_consent.interview_scheduling
    && is_confirmed i.scheduling_decision
    && proof_complete i.scheduling_decision

denies-application :
    (i : PolicyInput) (t : Trail)
    → denies (application_checks i t) ≡ (denies t || not (meets_action Action.send_application i))
unfolding application_checks
denies-application i t = elim (Bool-cases (forbids_submit i.mode)) [
  | inl e ↦ rw e (rw denies-add_failed (ground arith))
  | inr e ↦ rw e (rw (denies-push, denies-push, denies-push) (ground arith))
]

denies-reply :
    (i : PolicyInput) (t : Trail)
    → denies (reply_checks i t) ≡ (denies t || not (meets_action Action.send_recruiter_reply i))
unfolding reply_checks
denies-reply i t = elim (Bool-cases (asks_sensitive i.message_classification)) [
  | inl e ↦ rw e (rw denies-add_failed (ground arith))
  | inr e ↦ rw e (rw (denies-push, denies-push, denies-push) (ground arith))
]

denies-scheduling :
    (i : PolicyInput) (t : Trail)
    → denies (scheduling_checks i t)
      ≡ (denies t || not (meets_action Action.confirm_interview_slot i))
unfolding scheduling_checks
denies-scheduling i t = rw (denies-push, denies-push, denies-push) (ground arith)

denies-action :
    (a : Action) (i : PolicyInput) (t : Trail)
    → denies (action_checks a i t) ≡ (denies t || not (meets_action a i))
unfolding action_checks
denies-action Action.send_application i t = denies-application i t
denies-action Action.send_recruiter_reply i t = denies-reply i t
denies-action Action.confirm_interview_slot i t = denies-scheduling i t

-- The whole trail of one call.
abbrev pub trail : PolicyInput → Trail
trail i = global_check i (action_checks i.action i (common_checks i))

pub denies-trail :
    (i : PolicyInput) → denies (trail i) ≡ not (meets_common i && meets_action i.action i)
denies-trail i = rw (denies-global_check, denies-action, denies-common) (ground arith)

-- What the caller must have established for an action, apart from the engine's own text.
abbrev pub Consents : Action → PolicyInput → Type 0
Consents Action.send_application i =
    (i.candidate_profile.user_consent.auto_apply ≡ true)
    × (i.score ≡ some shortlisted)
    × (i.dedup_decision ≡ some new)
    × (i.mode ≢ AppMode.read_only)
    × (i.mode ≢ AppMode.dry_run_apply)
Consents Action.send_recruiter_reply i =
    (i.candidate_profile.user_consent.auto_reply ≡ true)
    × ((c : Classification) × (i.message_classification ≡ some c)
        × (c.allowed_auto_reply ≡ true)
        × (82 ≤ c.confidence)
        × (c.sensitive_data_requested ≡ false))
Consents Action.confirm_interview_slot i =
    (i.candidate_profile.user_consent.interview_scheduling ≡ true)
    × ((s : Scheduling) × (i.scheduling_decision ≡ some s)
        × (s.status ≡ confirm_slot)
        × (s.policy_proof.timezone_matched ≡ true)
        × (s.policy_proof.min_notice_satisfied ≡ true)
        × (s.policy_proof.inside_availability_window ≡ true)
        × (s.policy_proof.no_calendar_conflict ≡ true)
        × (s.policy_proof.max_per_day_satisfied ≡ true))

pub record MayAct (i : PolicyInput) : Type 0 where
  pub not_paused : i.mode ≢ AppMode.paused
  pub keyed : (key : String) × (i.idempotency_key ≡ some key) × (truthy key ≡ true)
  pub proven : i.proof_ready ≡ true
  pub validated : i.validation_passed ≡ true
  pub stable : i.provider_status ≡ ProviderStatus.stable
  pub in_rate : i.rate_limit_available ≡ true
  pub consents : Consents i.action i
  pub live : i.irreversible_actions_enabled ≡ true
  pub not_review_first : i.mode ≢ AppMode.review_first

conclude-allow_iff :
    (v : String) (i : PolicyInput) (t : Trail)
    → ((conclude v i t).decision ≡ allow) ↔ (
        (denies t ≡ false)
        × (i.irreversible_actions_enabled ≡ true)
        × (is_review_first i.mode ≡ false))
unfolding conclude
conclude-allow_iff v i t = rw keep-any (ground arith)

abbrev MayReply : Option Classification → Type 0
MayReply o =
    (c : Classification) × (o ≡ some c)
    × (c.allowed_auto_reply ≡ true)
    × (82 ≤ c.confidence)
    × (c.sensitive_data_requested ≡ false)

reply_sound :
    (o : Option Classification)
    → allows_reply o ≡ true
    → is_confident o ≡ true
    → asks_sensitive o ≡ false
    → MayReply o
reply_sound none a b d = cc
reply_sound (some c) a b d = (c, refl, a, ground arith, d)

reply_complete :
    (o : Option Classification)
    → MayReply o
    → (allows_reply o && is_confident o && not (asks_sensitive o)) ≡ true
reply_complete none h = cc (h.1)
reply_complete (some c) h = ground arith

abbrev MayConfirm : Option Scheduling → Type 0
MayConfirm o =
    (s : Scheduling) × (o ≡ some s)
    × (s.status ≡ confirm_slot)
    × (s.policy_proof.timezone_matched ≡ true)
    × (s.policy_proof.min_notice_satisfied ≡ true)
    × (s.policy_proof.inside_availability_window ≡ true)
    × (s.policy_proof.no_calendar_conflict ≡ true)
    × (s.policy_proof.max_per_day_satisfied ≡ true)

confirm_sound :
    (o : Option Scheduling) → is_confirmed o ≡ true → proof_complete o ≡ true → MayConfirm o
confirm_sound none a b = cc
confirm_sound (some s) a b =
    (s, refl, ground arith, ground arith, ground arith, ground arith, ground arith, ground arith)

confirm_complete :
    (o : Option Scheduling) → MayConfirm o → (is_confirmed o && proof_complete o) ≡ true
confirm_complete none h = cc (h.1)
confirm_complete (some s) h = ground arith

action_iff : (a : Action) (i : PolicyInput) → (meets_action a i ≡ true) ↔ Consents a i
action_iff Action.send_application i = ground arith
action_iff Action.send_recruiter_reply i = (
  λ h. (
    ground arith,
    reply_sound i.message_classification (ground arith) (ground arith) (ground arith),
  ),
  λ h. ground (arith, reply_complete i.message_classification h.1),
)
action_iff Action.confirm_interview_slot i = (
  λ h. (ground arith, confirm_sound i.scheduling_decision (ground arith) (ground arith)),
  λ h. ground (arith, confirm_complete i.scheduling_decision h.1),
)

-- `check` answers "allow" exactly when every condition of `MayAct` holds.
pub check-allow_iff :
    (version : String) (i : PolicyInput) → ((check version i).decision ≡ allow) ↔ MayAct i
unfolding check
check-allow_iff v i =
    ground (arith, conclude-allow_iff v i (trail i), denies-trail i, action_iff i.action i)
