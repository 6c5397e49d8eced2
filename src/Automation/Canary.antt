-- ===== src/Automation/Canary.antt =====
-- packages/automation/src/index.ts: browser sessions, the stored browser state, the access to
-- artifacts, canaries, replays, and what the error of a browser run leads to.
use telegram_job_search_auto.Common.{
  ℕ, String, Bool, true, false, not, ◌&&◌, ◌||◌, ◌≡◌, ◌↔◌, Option, none, some, List, [], ◌∷◌, ◌++◌,
  map, if◌then◌else◌, Dict, lookup, insert, includes, is_empty, is_some, is_none, keep, length,
  every, truthy?, or_else, leb, concat, text_includes, text_includes-here, text_includes-behind,
  ◌==◌, arith,
}
use telegram_job_search_auto.Domain.Types.{
  ErrorCode, error_text, navigation_timeout, network_error, provider_unavailable,
  provider_rate_limited, captcha_required, anti_automation_detected, provider_terms_block,
  account_locked, auth_expired, login_required, session_expired, selector_missing,
  selector_ambiguous, page_fingerprint_mismatch, form_schema_changed, confirmation_missing,
  job_already_applied, job_closed, job_not_matching_policy, salary_policy_conflict,
  location_policy_conflict, duplicate_company_thread_detected, facts_matrix_violation,
  cover_letter_policy_failed, resume_not_available,
}
use telegram_job_search_auto.Domain.Keys.{stable_hash}
use telegram_job_search_auto.Automation.{BrowserPageSnapshot}

pub record BrowserSession : Type 0 where
  pub provider_id : String
  pub account_id : String
  pub encrypted_state_key : String
  pub expires_at : Option String

pub record SessionCheck : Type 0 where
  pub usable : Bool
  pub error_code : Option ErrorCode

-- `createSession`; `session_id` is what `randomUUID` gives.
unfoldable pub create_session :
    String
    → String
    → String
    → String
    → Option String
    → Dict BrowserSession
    → Dict BrowserSession × String
create_session session_id provider account key expires sessions = (
  insert session_id
      (record {
        provider_id = provider;
        account_id = account;
        encrypted_state_key = key;
        expires_at = expires;
      })
      sessions,
  session_id,
)

-- `new Date(text).getTime() <= Date.now()`, which an unparseable text does not satisfy.
abbrev is_over : Option ℕ → ℕ → Bool
is_over none now = false
is_over (some t) now = leb t now

module _ (parse_time : String → Option ℕ) where
  assert_over : Option BrowserSession → ℕ → SessionCheck
  assert_over none now = record { usable = false; error_code = some session_expired }
  assert_over (some session) now =
      if truthy? session.expires_at && is_over (parse_time (or_else session.expires_at "")) now
      then record { usable = false; error_code = some session_expired }
      else record { usable = true; error_code = none }

  -- `assertUsable`
  unfoldable pub assert_usable : String → ℕ → Dict BrowserSession → SessionCheck
  unfolding assert_over
  assert_usable session_id now sessions = assert_over (lookup session_id sessions) now

pub record StoredState : Type 0 where
  pub encrypted_state_key : String
  pub state_hash : String

-- `BrowserAuthStateVault.store`
unfoldable pub store_state :
    (sha256_hex : String → String) → String → String → String → String → StoredState
store_state sha256_hex provider account raw_state secret_ref = record {
  encrypted_state_key = concat (
      "browser-state://"
      ∷ provider
      ∷ "/"
      ∷ account
      ∷ "/"
      ∷ stable_hash sha256_hex raw_state
      ∷ "?secret="
      ∷ stable_hash sha256_hex secret_ref
      ∷ []);
  state_hash = stable_hash sha256_hex raw_state;
}

-- `BrowserAuthStateVault.verify`
unfoldable pub verify_state : String → String → Bool
verify_state encrypted_state_key expected_state_hash =
    text_includes expected_state_hash encrypted_state_key

pub record BrowserArtifactManifest : Type 0 where
  pub flow_run_id : String
  pub screenshot_keys : List String
  pub dom_snapshot_keys : List String
  pub trace_key : Option String
  pub created_at : String

pub record ArtifactAudit : Type 0 where
  pub artifact_key : String
  pub actor : String
  pub purpose : String
  pub manifest_flow_run_id : String
  pub access_hash : String

-- `BrowserArtifactAccessLedger.authorize`
unfoldable pub authorize :
    (sha256_hex : String → String)
    → BrowserArtifactManifest
    → String
    → String
    → String
    → Bool × ArtifactAudit
authorize sha256_hex manifest artifact_key actor purpose = (
  includes artifact_key (
      manifest.screenshot_keys
      ++ manifest.dom_snapshot_keys
      ++ (if truthy? manifest.trace_key then or_else manifest.trace_key "" ∷ [] else [])),
  record {
    artifact_key = artifact_key;
    actor = actor;
    purpose = purpose;
    manifest_flow_run_id = manifest.flow_run_id;
    access_hash = stable_hash sha256_hex (concat (artifact_key ∷ ":" ∷ actor ∷ ":" ∷ purpose ∷ []));
  },
)

-- What `runProviderCanary` is given; of the selectors and fingerprints only their number counts.
pub record CanaryInput : Type 0 where
  pub selectors : Option ℕ
  pub fingerprints : Option ℕ
  pub fixture_snapshots : Option (Dict BrowserPageSnapshot)

pub data CanaryStatus : Type 0 where
  passed failed : CanaryStatus

pub record CanaryResult : Type 0 where
  pub provider_id : String
  pub status : CanaryStatus
  pub checks : List String
  pub failures : List String
  pub selector_count : ℕ
  pub fingerprint_count : ℕ
  pub fixture_snapshot_count : ℕ

abbrev pub required_snapshots : List String
required_snapshots = "search_results" ∷ "job_details" ∷ "application_form" ∷ []

-- `!xs || xs.length === 0`
abbrev pub counts_none : Option ℕ → Bool
counts_none n = leb (or_else n 0) 0

abbrev pub lacks_snapshot : Option (Dict BrowserPageSnapshot) → String → Bool
lacks_snapshot none name = false
lacks_snapshot (some snapshots) name = is_none (lookup name snapshots)

unfoldable pub canary_failures : String → CanaryInput → List String
canary_failures provider_id input =
    if provider_id == "telegram"
    then []
    else (if counts_none input.selectors then "selector_pack_missing" ∷ [] else [])
      ++ (if counts_none input.fingerprints then "fingerprints_missing" ∷ [] else [])
      ++ map (λ name. concat ("fixture_snapshot_missing:" ∷ name ∷ []))
          (keep (lacks_snapshot input.fixture_snapshots) required_snapshots)

-- `CanaryRunner.runProviderCanary`
unfoldable pub run_provider_canary : String → CanaryInput → CanaryResult
unfolding canary_failures
run_provider_canary provider_id input =
    let failures = canary_failures provider_id input in
    record {
      provider_id = provider_id;
      status = if is_empty failures then passed else CanaryStatus.failed;
      checks =
          "auth_canary" ∷ "search_results_canary" ∷ "job_page_canary" ∷ "apply_form_without_submit"
          ∷ [];
      failures = failures;
      selector_count = or_else input.selectors 0;
      fingerprint_count = or_else input.fingerprints 0;
      fixture_snapshot_count = length (or_else input.fixture_snapshots []);
    }

pub data BrowserErrorOutcome : Type 0 where
  retry_scheduled provider_disabled apply_failed read_only_fallback : BrowserErrorOutcome
  dead_lettered manual_review : BrowserErrorOutcome

-- `mapBrowserErrorOutcome`
unfoldable pub browser_error_outcome : Option ErrorCode → BrowserErrorOutcome
browser_error_outcome none = apply_failed
browser_error_outcome (some navigation_timeout) = retry_scheduled
browser_error_outcome (some network_error) = retry_scheduled
browser_error_outcome (some provider_unavailable) = retry_scheduled
browser_error_outcome (some provider_rate_limited) = retry_scheduled
browser_error_outcome (some captcha_required) = provider_disabled
browser_error_outcome (some anti_automation_detected) = provider_disabled
browser_error_outcome (some provider_terms_block) = provider_disabled
browser_error_outcome (some account_locked) = provider_disabled
browser_error_outcome (some auth_expired) = provider_disabled
browser_error_outcome (some login_required) = provider_disabled
browser_error_outcome (some session_expired) = provider_disabled
browser_error_outcome (some selector_missing) = dead_lettered
browser_error_outcome (some selector_ambiguous) = dead_lettered
browser_error_outcome (some page_fingerprint_mismatch) = dead_lettered
browser_error_outcome (some form_schema_changed) = dead_lettered
browser_error_outcome (some confirmation_missing) = dead_lettered
browser_error_outcome (some job_already_applied) = read_only_fallback
browser_error_outcome (some job_closed) = read_only_fallback
browser_error_outcome (some job_not_matching_policy) = read_only_fallback
browser_error_outcome (some salary_policy_conflict) = read_only_fallback
browser_error_outcome (some location_policy_conflict) = read_only_fallback
browser_error_outcome (some duplicate_company_thread_detected) = read_only_fallback
browser_error_outcome (some facts_matrix_violation) = manual_review
browser_error_outcome (some cover_letter_policy_failed) = manual_review
browser_error_outcome (some resume_not_available) = manual_review
browser_error_outcome (some _) = apply_failed

pub data ReplayStatus : Type 0 where
  replayed failed : ReplayStatus

pub record ReplayReport : Type 0 where
  pub flow_run_id : String
  pub status : ReplayStatus
  pub summary : String
  pub reproduced_error : Option ErrorCode
  pub recommended_action : String

replay_summary : Option ErrorCode → String
replay_summary none = "Replay completed without reproducing an error"
replay_summary (some code) = concat ("Replay reproduced " ∷ error_text code ∷ [])

replay_action : Option ErrorCode → String
replay_action (some page_fingerprint_mismatch) = "Update fingerprint or selector pack after review"
replay_action _ = "No action required"

-- `ReplayService.replay`
unfoldable pub replay : String → Option ErrorCode → ReplayReport
unfolding replay_summary replay_action
replay flow_run_id code = record {
  flow_run_id = flow_run_id;
  status = replayed;
  summary = replay_summary code;
  reproduced_error = code;
  recommended_action = replay_action code;
}

-- `ReplayService.replayFromArtifacts`; `show` is the decimal text of a number.
unfoldable pub replay_from_artifacts :
    (show : ℕ → String) → String → BrowserArtifactManifest → Option ErrorCode → ReplayReport
replay_from_artifacts show flow_run_id manifest code = record {
  flow_run_id = flow_run_id;
  status = replayed;
  summary = concat (
      "Replay loaded "
      ∷ show (length manifest.screenshot_keys)
      ∷ " screenshots and "
      ∷ show (length manifest.dom_snapshot_keys)
      ∷ " DOM snapshots"
      ∷ []);
  reproduced_error = code;
  recommended_action =
      if is_some code
      then "Inspect stored artifacts and update selector/fingerprint after review"
      else "No action required";
}

-- A canary passes exactly when its provider is telegram, or there is a selector and a fingerprint and,
-- where snapshots are given, each of the three that are required.
pub run_provider_canary-passed :
    (provider_id : String) (input : CanaryInput)
    → ((run_provider_canary provider_id input).status ≡ passed) ↔ (
        (provider_id == "telegram")
          || not (counts_none input.selectors)
            && not (counts_none input.fingerprints)
            && every (λ name. not (lacks_snapshot input.fixture_snapshots name)) required_snapshots
        ≡ true)
unfolding run_provider_canary canary_failures
run_provider_canary-passed provider_id input = ground arith

-- A stored state's key verifies against the hash that comes with it.
pub verify_state-store_state :
    (sha256_hex : String → String) (provider account raw_state secret_ref : String)
    → let stored = store_state sha256_hex provider account raw_state secret_ref in
      verify_state stored.encrypted_state_key (stable_hash sha256_hex raw_state) ≡ true
unfolding verify_state store_state
verify_state-store_state sha256_hex provider account raw_state secret_ref =
    let hash = stable_hash sha256_hex raw_state in
    text_includes-behind "browser-state://" hash _ (
      text_includes-behind provider hash _ (
        text_includes-behind "/" hash _ (
          text_includes-behind account hash _
            (text_includes-behind "/" hash _ (text_includes-here hash _)))))
