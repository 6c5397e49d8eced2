-- ===== src/ApplyWorker/Proof.antt =====
-- apps/worker-apply/src/runner.ts: when `evaluateSubmitProof` takes a proof pack as good.
use telegram_job_search_auto.Common.{
  String, Bool, true, false, not, ◌&&◌, ◌||◌, ◌≡◌, refl, ◌↔◌, ◌++◌, Option, none, some, List, [],
  ◌∷◌, ◌==◌, eq_iff, arith, is_empty, is_some, includes, truthy?, ◌⊎◌,
}
use telegram_job_search_auto.Domain.Types.{ErrorCode}
use telegram_job_search_auto.Domain.Proof.{ProofPack}
use telegram_job_search_auto.Records.{ApplicationRecord}
use telegram_job_search_auto.ApplyWorker.{proof_reasons, error_reasons, when}

-- A proof that the dry run of this application's job at its provider reached the submit boundary.
pub record IsProof (application : ApplicationRecord) (p : ProofPack) : Type 0 where
  pub same_provider : p.provider ≡ application.provider_id
  pub same_job : p.entity_id ≡ application.job_id
  pub reached :
      (p.final_status ≡ "dry_run_passed")
      ⊎ (p.final_status ≡ "submit_boundary_reached")
      ⊎ (p.final_status ≡ "succeeded")
  pub no_error : p.error_code ≡ none
  pub completed : truthy? p.completed_at ≡ true
  pub screenshot : truthy? p.pre_action_screenshot_key ≡ true
  pub snapshot : truthy? p.dom_snapshot_before_key ≡ true

empty-when :
    (b : Bool) (r : String) (xs : List String) → is_empty (when b r ++ xs) ≡ (not b && is_empty xs)
empty-when true r xs = refl
empty-when false r xs = refl

empty-last : (b : Bool) (r : String) → is_empty (when b r) ≡ not b
empty-last true r = refl
empty-last false r = refl

empty-errors :
    (e : Option ErrorCode) (xs : List String)
    → is_empty (error_reasons e ++ xs) ≡ (not (is_some e) && is_empty xs)
unfolding error_reasons
empty-errors none xs = refl
empty-errors (some e) xs = refl

none_iff : (e : Option ErrorCode) → (is_some e ≡ false) ↔ (e ≡ none)
none_iff none = ground arith
none_iff (some e) = ground arith

-- No reason is given exactly when each of the tests succeeds.
tests :
    (a : ApplicationRecord) (p : ProofPack)
    → is_empty (proof_reasons a p) ≡ (
        not (not (p.provider == a.provider_id))
        && (not (not (p.entity_id == a.job_id))
            && (not (
                  not (
                    includes p.final_status
                      ("dry_run_passed" ∷ "submit_boundary_reached" ∷ "succeeded" ∷ [])))
                && (not (is_some p.error_code)
                    && (not (not (truthy? p.completed_at))
                        && not (
                            not (truthy? p.pre_action_screenshot_key)
                            || not (truthy? p.dom_snapshot_before_key)))))))
unfolding proof_reasons
tests a p = rw (empty-when, empty-when, empty-when, empty-errors, empty-when, empty-last) refl

pub ready_iff :
    (a : ApplicationRecord) (p : ProofPack) → (is_empty (proof_reasons a p) ≡ true) ↔ IsProof a p
ready_iff a p = rw tests (
  λ h. record {
    same_provider = ground (arith, eq_iff p.provider a.provider_id);
    same_job = ground (arith, eq_iff p.entity_id a.job_id);
    reached = ground (
      arith,
      eq_iff "dry_run_passed" p.final_status,
      eq_iff "submit_boundary_reached" p.final_status,
      eq_iff "succeeded" p.final_status,
    );
    no_error = (none_iff p.error_code).0 (ground arith);
    completed = ground arith;
    screenshot = ground arith;
    snapshot = ground arith;
  },
  λ h. ground (
    arith,
    (eq_iff p.provider a.provider_id).1 h.same_provider,
    (eq_iff p.entity_id a.job_id).1 h.same_job,
    h.reached,
    eq_iff "dry_run_passed" p.final_status,
    eq_iff "submit_boundary_reached" p.final_status,
    eq_iff "succeeded" p.final_status,
    (none_iff p.error_code).1 h.no_error,
    h.completed,
    h.screenshot,
    h.snapshot,
  ),
)
