-- ===== src/Domain/Policy/Reasons.antt =====
-- What an answer of `PolicyEngine.check` says besides its decision, and how the modes differ.
use telegram_job_search_auto.Common.{
  String, Bool, true, false, not, ◌&&◌, ◌≡◌, refl, ◌↔◌, inl, inr, none, some, List, [], ◌∷◌, ◌++◌,
  ◌∙◌, sym, if◌then◌else◌, any, is_empty, arith, Bool-cases,
}
use mathlib.Core.List.{append-nil}
use telegram_job_search_auto.Domain.Types.{AppMode, Action, PolicyDecision, allow, deny}
use telegram_job_search_auto.Domain.Policy.{
  PolicyCheck, PolicyInput, Trail, push, add_failed, common_checks, action_checks, global_check,
  conclude, check, is_hard_failed, forbids_submit, asks_sensitive, is_review_first,
}
use telegram_job_search_auto.Domain.Policy.Allow.{
  denies, trail, any-append, denies-trail, keep-any, meets_common, meets_action,
}

-- The reasons of the checks that failed, in the order of the checks.
abbrev pub failed_reasons : List PolicyCheck → List String
failed_reasons [] = []
failed_reasons (c ∷ cs) =
    let rest = failed_reasons cs in
    if is_hard_failed c then elim c.reason [ some r ↦ r ∷ rest | none ↦ rest ] else rest

failed_reasons-append :
    (xs ys : List PolicyCheck) → failed_reasons (xs ++ ys) ≡ failed_reasons xs ++ failed_reasons ys
failed_reasons-append [] ys = refl
failed_reasons-append (x ∷ xs) ys = ground (arith, failed_reasons-append xs ys)

abbrev IsFaithful : Trail → Type 0
IsFaithful t = t.reasons ≡ failed_reasons t.checks

push-IsFaithful :
    (name : String) (ok : Bool) (reason : String) (t : Trail)
    → IsFaithful t
    → IsFaithful (push name ok reason t)
unfolding push
push-IsFaithful name true reason t h = rw (failed_reasons-append, append-nil) h
push-IsFaithful name false reason t h = rw (failed_reasons-append, h) refl

add_failed-IsFaithful :
    (name reason : String) (t : Trail) → IsFaithful t → IsFaithful (add_failed name reason t)
unfolding add_failed
add_failed-IsFaithful name reason t h = rw (failed_reasons-append, h) refl

global_check-IsFaithful :
    (i : PolicyInput) (t : Trail) → IsFaithful t → IsFaithful (global_check i t)
unfolding global_check
global_check-IsFaithful i t h = elim (Bool-cases i.irreversible_actions_enabled) [
  | inl on ↦ rw on h
  | inr off ↦ rw off (rw (failed_reasons-append, append-nil) h)
]

-- What holds of the two empty lists and is kept by each step holds of the lists in the end.
trail_induction :
    (P : Trail → Type 0)
    → P (record { checks = []; reasons = [] })
    → ((name : String) (ok : Bool) (reason : String) (t : Trail) → P t → P (push name ok reason t))
    → ((name reason : String) (t : Trail) → P t → P (add_failed name reason t))
    → ((i : PolicyInput) (t : Trail) → P t → P (global_check i t))
    → (i : PolicyInput) → P (trail i)
unfolding common_checks action_checks
trail_induction P start more failed global i = global i _ (
    acted i.action (
      more _ _ _ _
        (more _ _ _ _ (more _ _ _ _ (more _ _ _ _ (more _ _ _ _ (more _ _ _ _ start)))))))
  where
    acted : (a : Action) {t : Trail} → P t → P (action_checks a i t)
    acted Action.send_application h =
        let three = more _ _ _ _ (more _ _ _ _ (more _ _ _ _ h)) in
        elim (Bool-cases (forbids_submit i.mode)) [
          | inl e ↦ rw e (failed _ _ _ three)
          | inr e ↦ rw e three
        ]
    acted Action.send_recruiter_reply h =
        let three = more _ _ _ _ (more _ _ _ _ (more _ _ _ _ h)) in
        elim (Bool-cases (asks_sensitive i.message_classification)) [
          | inl e ↦ rw e (failed _ _ _ three)
          | inr e ↦ rw e three
        ]
    acted Action.confirm_interview_slot h = more _ _ _ _ (more _ _ _ _ (more _ _ _ _ h))

trail-IsFaithful : (i : PolicyInput) → IsFaithful (trail i)
trail-IsFaithful =
    trail_induction IsFaithful refl push-IsFaithful add_failed-IsFaithful global_check-IsFaithful

conclude-deny :
    (v : String) (i : PolicyInput) (t : Trail)
    → (conclude v i t).decision ≡ deny
    → IsFaithful t
    → (denies t ≡ true) × ((conclude v i t).reasons ≡ failed_reasons (conclude v i t).checks)
unfolding conclude
conclude-deny v i t = rw keep-any (ground arith)

-- A denial lists the reasons of exactly the checks that failed, in their order, and at least one
-- check did fail.
pub check-deny_reasons :
    (version : String) (i : PolicyInput)
    → (check version i).decision ≡ deny
    → (any is_hard_failed (check version i).checks ≡ true)
      × ((check version i).reasons ≡ failed_reasons (check version i).checks)
unfolding check conclude
check-deny_reasons v i h = ground (arith, conclude-deny v i (trail i), trail-IsFaithful i)

-- The answer is a denial exactly when a check that the action needs fails, whatever the global
-- switch says; otherwise it is "allow" or "requires_user_approval", never another decision.
pub check-decides :
    (version : String) (i : PolicyInput)
    → ((check version i).decision ≡ (
        if meets_common i && meets_action i.action i
        then if i.irreversible_actions_enabled && not (is_review_first i.mode)
          then allow
          else PolicyDecision.requires_user_approval
        else deny))
      × (((check version i).requires_user_approval ≡ true)
          ↔ ((check version i).decision ≡ PolicyDecision.requires_user_approval))
unfolding check conclude
check-decides v i = rw (keep-any, denies-trail) (ground arith)

pub check-allow_reasons :
    (version : String) (i : PolicyInput)
    → (check version i).decision ≡ allow
    → (check version i).reasons ≡ []
unfolding check conclude
check-allow_reasons v i = ground arith

-- `i` under another mode.
abbrev in_mode : AppMode → PolicyInput → PolicyInput
in_mode m i = record i { mode = m }

meets_modes :
    (a : Action) (i : PolicyInput)
    → meets_action a (in_mode AppMode.conversation_only i)
      ≡ meets_action a (in_mode AppMode.full_auto_apply i)
meets_modes Action.send_application i = refl
meets_modes Action.send_recruiter_reply i = refl
meets_modes Action.confirm_interview_slot i = refl

-- With the mode "conversation_only" the engine decides every action as it does with the mode
-- "full_auto_apply"; so it lets applications be submitted in both.
pub conversation_only-full_auto_apply :
    (version : String) (i : PolicyInput)
    → (check version (record i { mode = AppMode.conversation_only })).decision
      ≡ (check version (record i { mode = AppMode.full_auto_apply })).decision
conversation_only-full_auto_apply v i =
    (check-decides v (in_mode AppMode.conversation_only i)).0
    ∙ rw (meets_modes i.action i) (sym (check-decides v (in_mode AppMode.full_auto_apply i)).0)

-- There is a reason exactly when a check failed.
abbrev IsExplained : Trail → Type 0
IsExplained t = is_empty t.reasons ≡ not (any is_hard_failed t.checks)

is_empty-snoc : {A : Type 0} (xs : List A) (x : A) → is_empty (xs ++ x ∷ []) ≡ false
is_empty-snoc [] x = refl
is_empty-snoc (y ∷ xs) x = refl

trail-IsExplained : (i : PolicyInput) → IsExplained (trail i)
unfolding push add_failed global_check
trail-IsExplained =
    trail_induction IsExplained refl
      (λ name ok reason t h. elim (Bool-cases ok) [
        | inl passed ↦ rw (passed, any-append) (ground arith)
        | inr failed ↦ rw (failed, any-append, is_empty-snoc) (ground arith)
      ])
      (λ name reason t h. rw (any-append, is_empty-snoc) (ground arith))
      (λ i t h. elim (Bool-cases i.irreversible_actions_enabled) [
        | inl on ↦ rw on h
        | inr off ↦ rw off (rw any-append (ground arith))
      ])

pub deny-reasons :
    (version : String) (i : PolicyInput)
    → (check version i).decision ≡ deny
    → is_empty (check version i).reasons ≡ false
unfolding check conclude
deny-reasons v i = rw keep-any (ground (arith, trail-IsExplained i))
