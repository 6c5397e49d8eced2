-- ===== src/Domain/Dedup/Tests.antt =====
-- Deduplication at concrete inputs.
use telegram_job_search_auto.Common.{
  String, some, true, false, ◌||◌, ◌≡◌, refl, ◌↔◌, none, List, [], ◌∷◌, any, includes,
}
use telegram_job_search_auto.Domain.Policy.{duplicate, new, possible_duplicate}
use telegram_job_search_auto.Domain.Dedup.{
  DedupKey, KnownJob, same_posting, same_address, same_content, same_role, decide_dedup,
}
use telegram_job_search_auto.Domain.Dedup.Matches.{decide_dedup-status_iff}

abbrev key : DedupKey
key = record {
  provider_job_key = "hh:1001";
  canonical_url_key = none;
  content_hash_key = "c1";
  company_role_key = "r1";
}

abbrev known : List KnownJob
known =
    (record {
      entity_id = "job-7";
      key = record key { provider_job_key = "hh:7"; content_hash_key = "c7" };
    })
    ∷ []

role_only : (decide_dedup key known).status ≡ possible_duplicate
unfolding decide_dedup
role_only = refl

decide_dedup-status_iff_example :
    let x = decide_dedup key known in
    let posted = any (same_posting key) known in
    let addressed = any (same_address key) known in
    let described = any (same_content key) known in
    ((x.status ≡ duplicate) ↔ (posted || addressed ≡ true))
    × ((x.status ≡ new)
        ↔ (posted || (addressed || (described || any (same_role key) known)) ≡ false))
    × ((includes "skip_apply" x.actions ≡ false) ↔ (posted || (addressed || described) ≡ false))
    × ((item : KnownJob)
        → (same_address key item ≡ true)
          ↔ ((url : String) × (item.key.canonical_url_key ≡ some url) × (none ≡ some url)))
decide_dedup-status_iff_example = decide_dedup-status_iff key known
