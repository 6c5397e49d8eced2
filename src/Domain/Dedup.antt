-- ===== src/Domain/Dedup.antt =====
-- packages/domain/src/services.ts: `DedupEngine.decide`, from the key of the job on
-- (`buildDedupKey(job)` is given). Confidences are in percent.
pub mod Matches
pub mod Tests
use telegram_job_search_auto.Common.{
  ℕ, String, Bool, true, false, Option, none, some, List, [], ◌∷◌, ◌==◌, find, same_text?,
}
use telegram_job_search_auto.Domain.Policy.{DedupStatus, duplicate, new, possible_duplicate}

pub record DedupKey : Type 0 where
  pub provider_job_key : String
  pub canonical_url_key : Option String
  pub content_hash_key : String
  pub company_role_key : String

pub record KnownJob : Type 0 where
  pub entity_id : String
  pub key : DedupKey

pub record Match : Type 0 where
  pub entity_id : String
  pub match_type : String

pub record DedupDecision : Type 0 where
  pub status : DedupStatus
  pub confidence : ℕ
  pub matched_entities : List Match
  pub actions : List String

abbrev pub same_posting : DedupKey → KnownJob → Bool
same_posting key item = item.key.provider_job_key == key.provider_job_key

-- `item.canonicalUrlKey !== null && item.canonicalUrlKey === key.canonicalUrlKey`
abbrev pub same_url : Option String → Option String → Bool
same_url none known = false
same_url (some url) known = same_text? known url

abbrev pub same_address : DedupKey → KnownJob → Bool
same_address key item = same_url item.key.canonical_url_key key.canonical_url_key

abbrev pub same_content : DedupKey → KnownJob → Bool
same_content key item = item.key.content_hash_key == key.content_hash_key

abbrev pub same_role : DedupKey → KnownJob → Bool
same_role key item = item.key.company_role_key == key.company_role_key

matched : DedupStatus → ℕ → String → List String → KnownJob → DedupDecision
matched status confidence kind actions item = record {
  status = status;
  confidence = confidence;
  matched_entities = (record { entity_id = item.entity_id; match_type = kind }) ∷ [];
  actions = actions;
}

-- The first of the four searches that finds something.
decide_over : Option KnownJob → Option KnownJob → Option KnownJob → Option KnownJob → DedupDecision
unfolding matched
decide_over (some item) _ _ _ = matched duplicate 100 "providerJobKey" ("skip_apply" ∷ []) item
decide_over none (some item) _ _ =
    matched duplicate 98 "canonicalUrlKey" ("skip_apply" ∷ "link_to_existing_company_thread" ∷ [])
      item
decide_over none none (some item) _ =
    matched possible_duplicate 90 "contentHashKey"
      ("skip_apply" ∷ "link_to_existing_company_thread" ∷ []) item
decide_over none none none (some item) =
    matched possible_duplicate 74 "companyRoleKey" ("link_to_existing_company_thread" ∷ []) item
decide_over none none none none = record {
  status = new;
  confidence = 100;
  matched_entities = [];
  actions = "continue" ∷ [];
}

unfoldable pub decide_dedup : DedupKey → List KnownJob → DedupDecision
unfolding decide_over
decide_dedup key existing =
    decide_over (find (same_posting key) existing) (find (same_address key) existing)
      (find (same_content key) existing) (find (same_role key) existing)
