-- ===== src/Automation.antt =====
-- packages/automation/src/index.ts: the browser pages, the flows, `FingerprintEngine` and
-- `SelectorRegistry`. Plain objects are association lists; keys that an object inherits are left
-- aside. `to_lower_case` is the text method, `title_matches pattern title` is the test of the
-- regular expression, of a pattern that is one, under the flag i.
pub mod Runner
pub mod Flows
pub mod Canary
pub mod Tests
use telegram_job_search_auto.Common.{
  String, Bool, true, false, not, ◌&&◌, ◌||◌, Option, none, some, List, [], ◌∷◌, if◌then◌else◌, any,
  every, keep, includes, or_else, Dict, lookup, text_includes,
}
use telegram_job_search_auto.Domain.Types.{
  ErrorCode, captcha_required, page_fingerprint_mismatch, selector_missing, selector_ambiguous,
}

pub record BrowserPageSnapshot : Type 0 where
  pub url : String
  pub title : String
  pub text : String
  pub dom_anchors : List String

pub record FlowFingerprint : Type 0 where
  pub id : String
  pub url_pattern : String
  pub title_pattern : String
  pub required_dom_anchors : List String
  pub required_text_anchors : List String
  pub captcha_indicators : List String
  pub captcha_dom_anchors : Option (List String)
  pub captcha_url_patterns : Option (List String)

pub record FlowAction : Type 0 where
  pub action_id : String
  pub selector_key : Option String

pub record FlowState : Type 0 where
  pub state_id : String
  pub expected_fingerprint : String
  pub guards : List String
  pub actions : List FlowAction
  pub transitions : Dict String
  pub terminal : Option Bool

pub record FlowDefinition : Type 0 where
  pub flow_id : String
  pub provider : String
  pub version : String
  pub selector_pack_version : String
  pub entry_state : String
  pub states : Dict FlowState

pub record SelectorRegistryEntry : Type 0 where
  pub primary : String
  pub fallbacks : List String
  pub required : Bool

pub record MatchResult : Type 0 where
  pub matched : Bool
  pub error_code : Option ErrorCode

pub record SelectorResult : Type 0 where
  pub selector : Option String
  pub error_code : Option ErrorCode

module _ (to_lower_case : String → String) (title_matches : String → String → Bool) where
  unfoldable pub shows_captcha : BrowserPageSnapshot → FlowFingerprint → Bool
  shows_captcha page fingerprint =
      let lower_text = to_lower_case page.text in
      any (λ indicator. text_includes (to_lower_case indicator) lower_text)
        fingerprint.captcha_indicators
      || any (λ anchor. includes anchor page.dom_anchors)
          (or_else fingerprint.captcha_dom_anchors [])
      || any (λ pattern. text_includes (to_lower_case pattern) (to_lower_case page.url))
          (or_else fingerprint.captcha_url_patterns [])

  unfoldable pub shows_page : BrowserPageSnapshot → FlowFingerprint → Bool
  shows_page page fingerprint =
      let lower_text = to_lower_case page.text in
      text_includes fingerprint.url_pattern page.url
      && title_matches fingerprint.title_pattern page.title
      && every (λ anchor. includes anchor page.dom_anchors) fingerprint.required_dom_anchors
      && every (λ anchor. text_includes (to_lower_case anchor) lower_text)
          fingerprint.required_text_anchors

  -- `FingerprintEngine.matches`
  unfoldable pub match_page : BrowserPageSnapshot → FlowFingerprint → MatchResult
  match_page page fingerprint =
      if shows_captcha page fingerprint
      then record { matched = false; error_code = some captcha_required }
      else if shows_page page fingerprint
      then record { matched = true; error_code = none }
      else record { matched = false; error_code = some page_fingerprint_mismatch }

select : List String → Bool → SelectorResult
select [] required =
    if required
    then record { selector = none; error_code = some selector_missing }
    else record { selector = none; error_code = none }
select (s ∷ []) required = record { selector = some s; error_code = none }
select (s ∷ t ∷ ts) required = record { selector = none; error_code = some selector_ambiguous }

resolve_over : Option SelectorRegistryEntry → List String → SelectorResult
unfolding select
resolve_over none available = record { selector = none; error_code = some selector_missing }
resolve_over (some entry) available =
    select (keep (λ s. includes s available) (entry.primary ∷ entry.fallbacks)) entry.required

-- `SelectorRegistry.resolve`
unfoldable pub resolve_selector : Dict SelectorRegistryEntry → String → List String → SelectorResult
unfolding resolve_over
resolve_selector selectors key available = resolve_over (lookup key selectors) available
