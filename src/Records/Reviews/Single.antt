-- ===== src/Records/Reviews/Single.antt =====
-- There is at most one open review item on a matter.
use telegram_job_search_auto.Common.{
  ℕ, ◌≤◌, String, true, ◌≡◌, subst, inl, inr, Option, none, List, [], ◌∷◌, lookup, values, find,
  count, count-first-le, count-change-le, eq_iff, arith, Option-cases,
}
use telegram_job_search_auto.Records.{
  ManualReviewItem, ReviewInput, ReviewResolution, approve, reject, defer_item, resolved_item,
  Database, is_about,
}
use telegram_job_search_auto.Records.Reviews.{
  new_item, create_manual_review, resolve_manual_review, mark_provider_needs_review,
}

abbrev pub HasSingleOpen : Database → Type 0
HasSingleOpen db = (input : ReviewInput) → count (is_about input) db.manual_review_items ≤ 1

-- A call of one of the three operations that write review items.
pub data Call : Type 0 where
  create : ReviewInput → Call
  resolve : (id : String) → ReviewResolution → (actor : String) (reason : Option String) → Call
  mark_provider : (provider error_code entity_id : String) (message : Option String) → Call

-- Two inputs that one item is about are about the same items.
same_matter :
    (one other : ReviewInput) (id at : String)
    → is_about other (new_item id at one) ≡ true
    → (item : ManualReviewItem) → is_about one item ≡ is_about other item
same_matter one other id at h item = ground (
  arith,
  eq_iff one.user_id other.user_id,
  eq_iff one.entity_type other.entity_type,
  eq_iff one.entity_id other.entity_id,
  eq_iff one.reason_code other.reason_code,
)

resolved-is_about :
    (input : ReviewInput) (resolution : ReviewResolution) (at : String) (item : ManualReviewItem)
    → is_about input (resolved_item resolution at item) ≡ true
    → is_about input item ≡ true
resolved-is_about input approve at item h = ground (arith, h)
resolved-is_about input reject at item h = ground (arith, h)
resolved-is_about input defer_item at item h = h

module _ (uuid : ℕ → String) (iso : ℕ → String) where
  create-HasSingleOpen :
      (input : ReviewInput) (now : ℕ) (db : Database)
      → HasSingleOpen db
      → HasSingleOpen (create_manual_review uuid iso input now db).0
  unfolding create_manual_review
  create-HasSingleOpen input now db single other =
      elim (Option-cases (find (is_about input) (values db.manual_review_items))) [
        | inl absent ↦ rw absent (
            count-first-le (is_about other) _ (new_item _ _ input) db.manual_review_items
              (single other)
              (λ about.
                subst (λ test. find test (values db.manual_review_items) ≡ none)
                  (λ i item. same_matter input other (uuid db.drawn) (iso now) about item i)
                  absent))
        | inr (item, found) ↦ rw found (single other)
      ]

  resolve-HasSingleOpen :
      (id : String) (resolution : ReviewResolution) (actor : String) (reason : Option String)
      (now : ℕ) (db : Database)
      → HasSingleOpen db
      → HasSingleOpen (resolve_manual_review uuid iso id resolution actor reason now db).0
  unfolding resolve_manual_review
  resolve-HasSingleOpen id resolution actor reason now db single input =
      elim (Option-cases (lookup id db.manual_review_items)) [
        | inl absent ↦ rw absent (single input)
        | inr (item, there) ↦ rw there (
            omega (
              arith,
              single input,
              count-change-le (is_about input) id {held = item}
                  {new = resolved_item resolution (iso now) item} db.manual_review_items there
                  (resolved-is_about input resolution (iso now) item),
            ))
      ]

  mark-HasSingleOpen :
      (provider error_code entity_id : String) (message : Option String) (now : ℕ) (db : Database)
      → HasSingleOpen db
      → HasSingleOpen
          (mark_provider_needs_review uuid iso provider error_code entity_id message now db)
  unfolding mark_provider_needs_review
  mark-HasSingleOpen provider error_code entity_id message now db single =
      create-HasSingleOpen _ now _ single

  abbrev pub perform : Call → ℕ → Database → Database
  perform (create input) now db = (create_manual_review uuid iso input now db).0
  perform (resolve id resolution actor reason) now db =
      (resolve_manual_review uuid iso id resolution actor reason now db).0
  perform (mark_provider provider error_code entity_id message) now db =
      mark_provider_needs_review uuid iso provider error_code entity_id message now db

  perform-HasSingleOpen :
      (call : Call) (now : ℕ) (db : Database)
      → HasSingleOpen db
      → HasSingleOpen (perform call now db)
  perform-HasSingleOpen (create input) = create-HasSingleOpen input
  perform-HasSingleOpen (resolve id resolution actor reason) =
      resolve-HasSingleOpen id resolution actor reason
  perform-HasSingleOpen (mark_provider provider error_code entity_id message) =
      mark-HasSingleOpen provider error_code entity_id message

  unfoldable pub perform_all : List (Call × ℕ) → Database → Database
  perform_all [] db = db
  perform_all ((call, now) ∷ calls) db = perform_all calls (perform call now db)

  -- Whatever is called, no user comes to have two open review items on one matter.
  pub perform_all-HasSingleOpen :
      (calls : List (Call × ℕ)) (db : Database)
      → HasSingleOpen db
      → HasSingleOpen (perform_all calls db)
  unfolding perform_all
  perform_all-HasSingleOpen [] db single = single
  perform_all-HasSingleOpen ((call, now) ∷ calls) db single =
      perform_all-HasSingleOpen calls _ (perform-HasSingleOpen call now db single)
