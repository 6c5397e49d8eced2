-- ===== src/Domain/Dedup/Matches.antt =====
-- When a job counts as a duplicate.
use telegram_job_search_auto.Common.{
  String, eq_iff, Bool, true, false, ◌||◌, ◌≡◌, refl, ◌↔◌, Option, none, some, List, [], ◌∷◌, find,
  any, includes, is_some, arith,
}
use telegram_job_search_auto.Domain.Policy.{duplicate, new}
use telegram_job_search_auto.Domain.Dedup.{
  DedupKey, KnownJob, same_posting, same_address, same_content, same_role, same_url, decide_over,
  matched, decide_dedup,
}

some-find : (p : KnownJob → Bool) (xs : List KnownJob) → is_some (find p xs) ≡ any p xs
some-find p [] = refl
some-find p (x ∷ xs) = ground (arith, some-find p xs)

statuses :
    (a b c d : Option KnownJob)
    → let x = decide_over a b c d in
      ((x.status ≡ duplicate) ↔ (is_some a || is_some b ≡ true))
      × ((x.status ≡ new) ↔ (is_some a || (is_some b || (is_some c || is_some d)) ≡ false))
      × ((includes "skip_apply" x.actions ≡ false)
          ↔ (is_some a || (is_some b || is_some c) ≡ false))
unfolding decide_over matched
statuses (some i) b c d = ground arith
statuses none (some i) c d = ground arith
statuses none none (some i) d = ground arith
statuses none none none (some i) = ground arith
statuses none none none none = ground arith

url_sound :
    (a b : Option String) → same_url a b ≡ true → (url : String) × (a ≡ some url) × (b ≡ some url)
url_sound none b h = ground arith
url_sound (some a) none h = ground arith
url_sound (some a) (some b) h = (a, refl, ground (arith, eq_iff b a))

url_complete :
    (a b : Option String) (url : String) → a ≡ some url → b ≡ some url → same_url a b ≡ true
url_complete a b url ea eb = rw (ea, eb) (ground (arith, eq_iff url url))

decide_dedup-statuses :
    (key : DedupKey) (existing : List KnownJob)
    → let x = decide_dedup key existing in
      let posted = any (same_posting key) existing in
      let addressed = any (same_address key) existing in
      let described = any (same_content key) existing in
      ((x.status ≡ duplicate) ↔ (posted || addressed ≡ true))
      × ((x.status ≡ new)
          ↔ (posted || (addressed || (described || any (same_role key) existing)) ≡ false))
      × ((includes "skip_apply" x.actions ≡ false) ↔ (posted || (addressed || described) ≡ false))
unfolding decide_dedup
decide_dedup-statuses key existing =
    rw
      (
        ← some-find (same_posting key) existing,
        ← some-find (same_address key) existing,
        ← some-find (same_content key) existing,
        ← some-find (same_role key) existing,
      )
      (statuses _ _ _ _)

-- A job is a duplicate exactly when a known one has its posting or its address, and new exactly
-- when none agrees with it in posting, address, content or role; the application is skipped unless
-- none agrees in posting, address or content. An address agrees exactly
-- where both jobs have one and it is the same.
pub decide_dedup-status_iff :
    (key : DedupKey) (existing : List KnownJob)
    → let x = decide_dedup key existing in
      let posted = any (same_posting key) existing in
      let addressed = any (same_address key) existing in
      let described = any (same_content key) existing in
      ((x.status ≡ duplicate) ↔ (posted || addressed ≡ true))
      × ((x.status ≡ new)
          ↔ (posted || (addressed || (described || any (same_role key) existing)) ≡ false))
      × ((includes "skip_apply" x.actions ≡ false) ↔ (posted || (addressed || described) ≡ false))
      × ((item : KnownJob)
          → (same_address key item ≡ true) ↔ (
              (url : String) × (item.key.canonical_url_key ≡ some url)
              × (key.canonical_url_key ≡ some url)))
decide_dedup-status_iff key existing =
    let (is_duplicate, is_new, is_skipped) = decide_dedup-statuses key existing in
    (
      is_duplicate,
      is_new,
      is_skipped,
      λ item. (
        url_sound item.key.canonical_url_key key.canonical_url_key,
        λ (url, theirs, ours).
            url_complete item.key.canonical_url_key key.canonical_url_key url theirs ours,
      ),
    )
