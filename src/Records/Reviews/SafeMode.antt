-- ===== src/Records/Reviews/SafeMode.antt =====
-- What `markProviderNeedsReview` leaves.
use telegram_job_search_auto.Common.{
  ℕ, String, ◌≡◌, ◌≢◌, refl, inl, inr, true, find_sound, find-Mem, List, [], ◌∷◌, ◌++◌, Option,
  some, lookup, lookup-insert_self, lookup-insert_ne, insert, values, find, find-insert, eq_iff,
  arith, Option-cases,
}
use telegram_job_search_auto.Domain.Types.{needs_review}
use telegram_job_search_auto.Domain.Json.{str, obj, end, field}
use telegram_job_search_auto.Approvals.{AuditEvent, value}
use mathlib.Core.List.{Mem}
use telegram_job_search_auto.Records.{
  ReviewStatus, open_item, is_open, ManualReviewItem, ReviewInput, ProviderHealth, Database,
  is_about,
}
use telegram_job_search_auto.Records.Reviews.{
  new_item, safe_mode_health, safe_mode_review, update_provider_health, create_manual_review,
  mark_provider_needs_review,
}

-- An item on this error of the provider that waits for a review, as the user of the database has
-- it.
pub record IsAsked (db : Database) (provider error_code : String) (item : ManualReviewItem)
    : Type 0 where
  pub of_user : item.user_id ≡ db.user_id
  pub of_provider : item.entity_type ≡ "provider"
  pub named : item.entity_id ≡ provider
  pub for_error : item.reason_code ≡ error_code
  pub waits : item.status ≡ open_item

-- An event that tells of the safe mode of the provider, of the error and of where it came from.
pub record IsReport (provider error_code entity_id : String) (event : AuditEvent) : Type 0 where
  pub of_provider : event.entity_type ≡ "provider"
  pub named : event.entity_id ≡ provider
  pub says : event.event_type ≡ "provider_safe_mode_enabled"
  pub tells :
      event.payload
      ≡ value
          (obj (field "errorCode" (str error_code) (field "sourceEntityId" (str entity_id) end)))

waiting : (s : ReviewStatus) → is_open s ≡ true → s ≡ open_item
waiting open_item h = refl
waiting s h = ground arith

about-IsAsked :
    (db : Database) (provider error_code : String) (item : ManualReviewItem)
    → is_about (safe_mode_review db.user_id provider error_code) item ≡ true
    → IsAsked db provider error_code item
about-IsAsked db provider error_code item h = record {
  of_user = ground (arith, eq_iff item.user_id db.user_id);
  of_provider = ground (arith, eq_iff item.entity_type "provider");
  named = ground (arith, eq_iff item.entity_id provider);
  for_error = ground (arith, eq_iff item.reason_code error_code);
  waits = waiting item.status (ground arith);
}

module _ (uuid : ℕ → String) (iso : ℕ → String) where
  create-health :
      (input : ReviewInput) (now : ℕ) (db : Database)
      → (create_manual_review uuid iso input now db).0.provider_health ≡ db.provider_health
  unfolding create_manual_review
  create-health input now db =
      elim (Option-cases (find (is_about input) (values db.manual_review_items))) [
        | inl absent ↦ rw absent refl
        | inr (item, found) ↦ rw found refl
      ]

  create-held :
      (input : ReviewInput) (now : ℕ) (db : Database)
      → let (after, item) = create_manual_review uuid iso input now db in
        find (is_about input) (values after.manual_review_items) ≡ some item
  unfolding create_manual_review
  create-held input now db =
      elim (Option-cases (find (is_about input) (values db.manual_review_items))) [
        | inl absent ↦ rw absent (
            find-insert (is_about input) _ (new_item (uuid db.drawn) (iso now) input)
              db.manual_review_items absent
              (ground (
                arith,
                eq_iff input.user_id input.user_id,
                eq_iff input.entity_type input.entity_type,
                eq_iff input.entity_id input.entity_id,
                eq_iff input.reason_code input.reason_code,
              )))
        | inr (item, found) ↦ rw found found
      ]

  abbrev marked_in : String → String → Option String → ℕ → Database → Database
  marked_in provider error_code message now =
      update_provider_health (safe_mode_health provider error_code message (iso now))

  mark-health :
      (provider error_code entity_id : String) (message : Option String) (now : ℕ) (db : Database)
      → let after =
          mark_provider_needs_review uuid iso provider error_code entity_id message now db in
        (h : ProviderHealth) × (h.status ≡ needs_review)
        × (after.provider_health ≡ insert provider h db.provider_health)
  unfolding mark_provider_needs_review
  mark-health provider error_code entity_id message now db = (
    safe_mode_health provider error_code message (iso now),
    refl,
    create-health (safe_mode_review db.user_id provider error_code) now
        (marked_in provider error_code message now db),
  )

  mark-held :
      (provider error_code entity_id : String) (message : Option String) (now : ℕ) (db : Database)
      → let after =
          mark_provider_needs_review uuid iso provider error_code entity_id message now db in
        (item : ManualReviewItem) × Mem item (values after.manual_review_items)
        × IsAsked db provider error_code item
  unfolding mark_provider_needs_review
  mark-held provider error_code entity_id message now db =
      let asked = safe_mode_review db.user_id provider error_code in
      let (after, item) =
        create_manual_review uuid iso asked now (marked_in provider error_code message now db) in
      let found = create-held asked now (marked_in provider error_code message now db) in
      (
        item,
        find-Mem (is_about asked) (values after.manual_review_items) found,
        about-IsAsked db provider error_code item
            (find_sound (is_about asked) (values after.manual_review_items) found),
      )

  mark-told :
      (provider error_code entity_id : String) (message : Option String) (now : ℕ) (db : Database)
      → let after =
          mark_provider_needs_review uuid iso provider error_code entity_id message now db in
        (events : List AuditEvent) × (event : AuditEvent) × (after.audit_events
          ≡ events ++ (event ∷ []))
        × IsReport provider error_code entity_id event
  unfolding mark_provider_needs_review
  mark-told provider error_code entity_id message now db =
      (_, _, refl, record { of_provider = refl; named = refl; says = refl; tells = refl })

  -- After a provider is marked, its stored health says "needs_review", and the stored health of every
  -- other provider is what it was; among the review items there is one of the user that is open and
  -- names the provider and the error, whether it was there or is new; and the last audit event tells
  -- that the provider went into safe mode, with the error and the entity it came from.
  pub mark_provider_needs_review-safe :
      (provider other error_code entity_id : String) (message : Option String) (now : ℕ)
      (db : Database)
      → provider ≢ other
      → let after =
          mark_provider_needs_review uuid iso provider error_code entity_id message now db in
        ((h : ProviderHealth) × (lookup provider after.provider_health ≡ some h)
          × (h.status ≡ needs_review))
        × (lookup other after.provider_health ≡ lookup other db.provider_health)
        × ((item : ManualReviewItem) × Mem item (values after.manual_review_items)
            × IsAsked db provider error_code item)
        × ((events : List AuditEvent) × (event : AuditEvent) × (after.audit_events
              ≡ events ++ (event ∷ []))
            × IsReport provider error_code entity_id event)
  mark_provider_needs_review-safe provider other error_code entity_id message now db apart =
      let (h, marked, health) = mark-health provider error_code entity_id message now db in
      (
        (h, rw health (lookup-insert_self provider h db.provider_health), marked),
        rw health (lookup-insert_ne provider other h db.provider_health apart),
        mark-held provider error_code entity_id message now db,
        mark-told provider error_code entity_id message now db,
      )
