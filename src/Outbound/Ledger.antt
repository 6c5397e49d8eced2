-- ===== src/Outbound/Ledger.antt =====
-- What later dispatches leave of the record under an idempotency key.
use telegram_job_search_auto.Common.{
  ℕ, ◌≤◌, String, Bool, true, false, ◌≡◌, ◌≢◌, refl, sym, ◌∙◌, ◌⊎◌, inl, inr, Option, none, some,
  List, [], ◌∷◌, if◌then◌else◌, Dict, insert, values, find, find_sound, All, arith, eq_iff, ◌==◌,
  Bool-cases, Option-cases,
}
use telegram_job_search_auto.Outbound.{DispatchStatus, OutboundDispatchResult}
use telegram_job_search_auto.Outbound.Records.{
  OutboundMessageRecord, Database, DispatchRecord, has_key, rank, should_update, updated_by,
  change_first, record_dispatch,
}

-- The first entry whose record passes the test.
abbrev pub find_entry :
    (OutboundMessageRecord → Bool)
    → Dict OutboundMessageRecord
    → Option (String × OutboundMessageRecord)
find_entry test [] = none
find_entry test ((id, r) ∷ rest) =
    let later = find_entry test rest in if test r then some (id, r) else later

find-entry :
    (test : OutboundMessageRecord → Bool) (m : Dict OutboundMessageRecord) (id : String)
    (r : OutboundMessageRecord)
    → find_entry test m ≡ some (id, r)
    → find test (values m) ≡ some r
find-entry test [] id r h = cc
find-entry test ((name, t) ∷ m) id r h = elim (Bool-cases (test t)) [
  | inl here ↦ rw here (ground (arith, rw here at h))
  | inr other ↦ rw other (find-entry test m id r (rw other at h))
]

entry-insert :
    (test : OutboundMessageRecord → Bool) (m : Dict OutboundMessageRecord) (id written : String)
    (r new : OutboundMessageRecord)
    → find_entry test m ≡ some (id, r)
    → test new ≡ false
    → written ≢ id
    → find_entry test (insert written new m) ≡ some (id, r)
unfolding insert
entry-insert test [] id written r new h other apart = cc
entry-insert test ((name, t) ∷ m) id written r new h other apart =
    ground (arith, eq_iff name written, entry-insert test m id written r new)

entry-change_other :
    (key changed : String) (f : OutboundMessageRecord → OutboundMessageRecord)
    (m : Dict OutboundMessageRecord)
    → changed ≢ key
    → ((r : OutboundMessageRecord) → (f r).message ≡ r.message)
    → find_entry (has_key key) (change_first (has_key changed) f m) ≡ find_entry (has_key key) m
unfolding change_first
entry-change_other key changed f [] apart same = refl
entry-change_other key changed f ((name, t) ∷ m) apart same =
    elim (Bool-cases (has_key changed t)) [
      | inl here ↦ rw here (
          ground (
            arith,
            same t,
            eq_iff t.message.idempotency_key changed,
            eq_iff t.message.idempotency_key key,
          ))
      | inr other ↦ rw other (ground (arith, entry-change_other key changed f m apart same))
    ]

entry-change :
    (test : OutboundMessageRecord → Bool) (f : OutboundMessageRecord → OutboundMessageRecord)
    (m : Dict OutboundMessageRecord) (id : String) (r : OutboundMessageRecord)
    → find_entry test m ≡ some (id, r)
    → test (f r) ≡ true
    → find_entry test (change_first test f m) ≡ some (id, f r)
unfolding change_first
entry-change test f [] id r h kept = cc
entry-change test f ((name, t) ∷ m) id r h kept = ground (arith, entry-change test f m id r)

-- What stays of a record: its message and the hash of its text; and once sent, all of it. From
-- `dry_run_recorded` on its rank does not fall.
pub record IsKept (r t : OutboundMessageRecord) : Type 0 where
  pub message : t.message ≡ r.message
  pub text_hash : t.proof.text_hash ≡ r.proof.text_hash
  pub sent : r.status ≡ DispatchStatus.sent → t ≡ r
  pub rises : 2 ≤ rank r.status → rank r.status ≤ rank t.status

IsKept-refl : (r : OutboundMessageRecord) → IsKept r r
IsKept-refl r = record {
  message = refl;
  text_hash = refl;
  sent = λ h. refl;
  rises = λ h. omega arith;
}

IsKept-trans : (r s t : OutboundMessageRecord) → IsKept r s → IsKept s t → IsKept r t
IsKept-trans r s t a b = record {
  message = b.message ∙ a.message;
  text_hash = b.text_hash ∙ a.text_hash;
  sent = λ h. ground (arith, a.sent h, b.sent);
  rises = λ h. omega (arith, a.rises h, b.rises);
}

updated-IsKept :
    (r : OutboundMessageRecord) (result : OutboundDispatchResult)
    → r.proof.text_hash ≡ result.proof.text_hash
    → should_update r.status result.status ≡ true
    → IsKept r (updated_by result r)
unfolding should_update
updated-IsKept r result same h = record {
  message = refl;
  text_hash = sym same;
  sent = λ sent. ground (arith, h, sent);
  rises = λ high. ground (arith, h, high);
}

-- A call for another key does not write over the entry.
abbrev pub IsApart : String → String → DispatchRecord → Type 0
IsApart key id call =
    (call.message.idempotency_key ≡ key) ⊎ (call.result.proof.outbound_message_id ≢ id)

abbrev pub HasKept : String → String → OutboundMessageRecord → Database → Type 0
HasKept key id r db =
    (t : OutboundMessageRecord) × (find_entry (has_key key) db.outbound_messages ≡ some (id, t))
    × IsKept r t

changed-HasKept :
    (key id changed : String) (r s : OutboundMessageRecord) (result : OutboundDispatchResult)
    (m : Dict OutboundMessageRecord)
    → find_entry (has_key key) m ≡ some (id, r)
    → find (has_key changed) (values m) ≡ some s
    → s.proof.text_hash ≡ result.proof.text_hash
    → should_update s.status result.status ≡ true
    → (t : OutboundMessageRecord) × (find_entry
          (has_key key)
          (change_first (has_key changed) (updated_by result) m)
        ≡ some (id, t))
      × IsKept r t
changed-HasKept key id changed r s result m there found same grows =
    elim (Bool-cases (changed == key)) [
      | inl keyed ↦
          let named : changed ≡ key = (eq_iff changed key).0 keyed in
          let at_key = find-entry (has_key key) m id r there in
          let one : s ≡ r = ground (rw named at found, arith) in
          let mine : has_key key r ≡ true = find_sound (has_key key) (values m) {a = r} at_key in
          (
            updated_by result r,
            rw named (entry-change (has_key key) (updated_by result) m id r there mine),
            updated-IsKept r result (rw one at same) (rw one at grows),
          )
      | inr apart ↦ (
        r,
        entry-change_other key changed (updated_by result) m
              (λ e. ground (arith, eq_iff changed key)) (λ t. refl)
            ∙ there,
        IsKept-refl r,
      )
    ]

module _ (uuid : ℕ → String) (iso : ℕ → String) where
  record-HasKept :
      (key id : String) (r : OutboundMessageRecord) (call : DispatchRecord) (now : ℕ)
      (db : Database)
      → find_entry (has_key key) db.outbound_messages ≡ some (id, r)
      → IsApart key id call
      → HasKept key id r (record_dispatch uuid iso call now db).0
  unfolding record_dispatch
  record-HasKept key id r call now db there apart =
      elim (Option-cases
        (find (has_key call.message.idempotency_key) (values db.outbound_messages))) [
          | inl absent ↦
              let at_key = find-entry (has_key key) db.outbound_messages id r there in
              let differs : call.message.idempotency_key ≢ key =
                λ same. ground (arith, at_key, rw same at absent) in
              rw absent (
                r,
                entry-insert (has_key key) db.outbound_messages id _ r _ there
                    (ground (arith, differs, eq_iff call.message.idempotency_key key))
                    (ground (arith, differs, apart)),
                IsKept-refl r,
              )
          | inr (s, found) ↦
              rw found (elim (Bool-cases (s.proof.text_hash == call.result.proof.text_hash)) [
                | inr changed ↦ rw changed (r, there, IsKept-refl r)
                | inl same ↦ elim (Bool-cases (should_update s.status call.result.status)) [
                  | inr stays ↦ rw (same, stays) (r, there, IsKept-refl r)
                  | inl grows ↦
                      rw (same, grows)
                        (changed-HasKept key id call.message.idempotency_key r s call.result
                          db.outbound_messages there found ((eq_iff _ _).0 same) grows)
                ]
              ])
        ]

  -- The database after the calls, each at its time.
  unfoldable pub record_all : List (DispatchRecord × ℕ) → Database → Database
  record_all [] db = db
  record_all ((call, now) ∷ calls) db = record_all calls (record_dispatch uuid iso call now db).0

  -- However often dispatches are recorded, those for other keys under other identifiers, the record
  -- under a key stays there with its message and the hash of its text; it is final once it is sent, and
  -- from `dry_run_recorded` on its rank does not fall.
  pub record_all-HasKept :
      (key id : String) (r : OutboundMessageRecord) (calls : List (DispatchRecord × ℕ))
      (db : Database)
      → find_entry (has_key key) db.outbound_messages ≡ some (id, r)
      → All (λ c. IsApart key id c.0) calls
      → HasKept key id r (record_all calls db)
  unfolding record_all
  record_all-HasKept key id r [] db there apart = (r, there, IsKept-refl r)
  record_all-HasKept key id r ((call, now) ∷ calls) db there (first, apart) =
      let (s, at_s, one) = record-HasKept key id r call now db there first in
      let (t, at_t, more) = record_all-HasKept key id s calls _ at_s apart in
      (t, at_t, IsKept-trans r s t one more)
