-- ===== src/Records/Applications/Unique.antt =====
-- An idempotency key has at most one application.
use telegram_job_search_auto.Common.{
  ℕ, ◌≤◌, String, ◌≡◌, refl, inl, inr, Option, some, List, [], ◌∷◌, Dict, insert, lookup, values,
  find, find_sound, find-insert, count, count-first-le, count-change-le, eq_iff, ◌==◌, arith,
  Bool-cases, Option-cases,
}
use telegram_job_search_auto.Domain.Proof.{ProofPack}
use telegram_job_search_auto.Records.{ApplicationRecord, ApplicationInput, Database, has_key}
use telegram_job_search_auto.Records.Applications.{
  create_application, set_application_status, link_proof, record_proof_pack,
}

abbrev pub HasSingle : Database → Type 0
HasSingle db = (key : String) → count (has_key key) db.applications ≤ 1

-- A call of one of the three operations that write applications.
pub data Call : Type 0 where
  create : ApplicationInput → Call
  set_status : (id status : String) (submitted_at : Option (Option String)) → Call
  prove : ProofPack → (entity_type entity_id : String) (actor : Option String) → Call

module _ (uuid : ℕ → String) (iso : ℕ → String) where
  suppressed :
      (input : ApplicationInput) (a : ApplicationRecord) (now : ℕ) (db : Database)
      → find (has_key input.idempotency_key) (values db.applications) ≡ some a
      → let (after, b) = create_application uuid iso input now db in
        (b ≡ a) × (after.applications ≡ db.applications)
  unfolding create_application
  suppressed input a now db found = rw found (refl, refl)

  create_application-held :
      (input : ApplicationInput) (now : ℕ) (db : Database)
      → let (after, a) = create_application uuid iso input now db in
        find (has_key input.idempotency_key) (values after.applications) ≡ some a
  unfolding create_application
  create_application-held input now db =
      elim (Option-cases (find (has_key input.idempotency_key) (values db.applications))) [
        | inl absent ↦ rw absent (
            find-insert (has_key input.idempotency_key) _ _ db.applications absent
              (ground (arith, eq_iff input.idempotency_key input.idempotency_key)))
        | inr (a, found) ↦ rw found found
      ]

  -- A second call under the key of a first returns the record of the first, and leaves every
  -- application as it is.
  pub create_application-again :
      (input other : ApplicationInput) (now later : ℕ) (db : Database)
      → other.idempotency_key ≡ input.idempotency_key
      → let (first, a) = create_application uuid iso input now db in
        let (second, b) = create_application uuid iso other later first in
        (a.idempotency_key ≡ input.idempotency_key)
        × (b ≡ a)
        × (second.applications ≡ first.applications)
  create_application-again input other now later db same =
      let (first, a) = create_application uuid iso input now db in
      let held = create_application-held input now db in
      let keyed =
        find_sound (has_key input.idempotency_key) (values first.applications) {a = a} held in
      let (one, unchanged) = suppressed other a later first (rw same held) in
      ((eq_iff _ _).0 keyed, one, unchanged)

  abbrev pub perform : Call → ℕ → Database → Database
  perform (create input) now db = (create_application uuid iso input now db).0
  perform (set_status id status submitted_at) now db =
      (set_application_status uuid iso id status submitted_at now db).0
  perform (prove pack entity_type entity_id actor) now db =
      (record_proof_pack uuid iso pack entity_type entity_id actor now db).0

  unfoldable pub perform_all : List (Call × ℕ) → Database → Database
  perform_all [] db = db
  perform_all ((call, now) ∷ calls) db = perform_all calls (perform call now db)

  changed-HasSingle :
      (id : String) (held new : ApplicationRecord) (m : Dict ApplicationRecord) (key : String)
      → lookup id m ≡ some held
      → new.idempotency_key ≡ held.idempotency_key
      → count (has_key key) m ≤ 1
      → count (has_key key) (insert id new m) ≤ 1
  changed-HasSingle id held new m key there same single = omega (
    arith,
    single,
    count-change-le (has_key key) id {held = held} {new = new} m there (λ h. rw same at h),
  )

  create-HasSingle :
      (input : ApplicationInput) (now : ℕ) (db : Database)
      → HasSingle db
      → HasSingle (create_application uuid iso input now db).0
  unfolding create_application
  create-HasSingle input now db single key =
      elim (Option-cases (find (has_key input.idempotency_key) (values db.applications))) [
        | inl absent ↦ rw absent (
            count-first-le (has_key key) _ _ db.applications (single key)
              (λ keyed. rw⁻¹ ((eq_iff input.idempotency_key key).0 keyed) absent))
        | inr (a, found) ↦ rw found (single key)
      ]

  status-HasSingle :
      (id status : String) (submitted_at : Option (Option String)) (now : ℕ) (db : Database)
      → HasSingle db
      → HasSingle (set_application_status uuid iso id status submitted_at now db).0
  unfolding set_application_status
  status-HasSingle id status submitted_at now db single key =
      elim (Option-cases (lookup id db.applications)) [
        | inl absent ↦ rw absent (single key)
        | inr (a, there) ↦
            rw there (changed-HasSingle id a _ db.applications key there refl (single key))
      ]

  proof-HasSingle :
      (pack : ProofPack) (entity_type entity_id : String) (actor : Option String) (now : ℕ)
      (db : Database)
      → HasSingle db
      → HasSingle (record_proof_pack uuid iso pack entity_type entity_id actor now db).0
  unfolding record_proof_pack link_proof
  proof-HasSingle pack entity_type entity_id actor now db single key =
      elim (Bool-cases (entity_type == "application")) [
        | inr other ↦ rw other (single key)
        | inl linked ↦ rw linked (elim (Option-cases (lookup entity_id db.applications)) [
          | inl absent ↦ rw absent (single key)
          | inr (a, there) ↦
              rw there (changed-HasSingle entity_id a _ db.applications key there refl (single key))
        ])
      ]

  perform-HasSingle :
      (call : Call) (now : ℕ) (db : Database) → HasSingle db → HasSingle (perform call now db)
  perform-HasSingle (create input) = create-HasSingle input
  perform-HasSingle (set_status id status submitted_at) = status-HasSingle id status submitted_at
  perform-HasSingle (prove pack entity_type entity_id actor) =
      proof-HasSingle pack entity_type entity_id actor

  -- Whatever is called, no idempotency key comes to have two applications.
  pub perform_all-HasSingle :
      (calls : List (Call × ℕ)) (db : Database) → HasSingle db → HasSingle (perform_all calls db)
  unfolding perform_all
  perform_all-HasSingle [] db single = single
  perform_all-HasSingle ((call, now) ∷ calls) db single =
      perform_all-HasSingle calls _ (perform-HasSingle call now db single)
