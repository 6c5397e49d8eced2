-- ===== src/Outbound/Single.antt =====
-- An idempotency key has at most one record.
use telegram_job_search_auto.Common.{
  ℕ, ◌≤◌, String, ◌≡◌, refl, none, List, [], ◌∷◌, inl, inr, Dict, insert, values, find, count,
  count-insert-le, count-none, arith, eq_iff, ◌==◌, Bool-cases, Option-cases,
}
use telegram_job_search_auto.Outbound.Records.{
  OutboundMessageRecord, Database, DispatchRecord, has_key, should_update, updated_by, change_first,
  record_dispatch,
}
use telegram_job_search_auto.Outbound.Ledger.{record_all}

abbrev pub HasSingle : Database → Type 0
HasSingle db = (key : String) → count (has_key key) db.outbound_messages ≤ 1

count-change_first :
    (key changed : String) (f : OutboundMessageRecord → OutboundMessageRecord)
    (m : Dict OutboundMessageRecord)
    → ((r : OutboundMessageRecord) → (f r).message ≡ r.message)
    → count (has_key key) (change_first (has_key changed) f m) ≡ count (has_key key) m
unfolding change_first
count-change_first key changed f [] same = refl
count-change_first key changed f ((name, r) ∷ m) same = elim (Bool-cases (has_key changed r)) [
  | inl here ↦ rw here (ground (arith, same r))
  | inr other ↦ rw other (ground (arith, count-change_first key changed f m same))
]

insert-single :
    (key id : String) (new : OutboundMessageRecord) (m : Dict OutboundMessageRecord)
    → count (has_key key) m ≤ 1
    → find (has_key new.message.idempotency_key) (values m) ≡ none
    → count (has_key key) (insert id new m) ≤ 1
insert-single key id new m single absent =
    let grown = count-insert-le (has_key key) id new m in
    elim (Bool-cases (new.message.idempotency_key == key)) [
      | inl same ↦
          let named : new.message.idempotency_key ≡ key = (eq_iff _ _).0 same in
          let gone = count-none (has_key key) m (rw named at absent) in
          omega (arith, rw (same, gone) at grown)
      | inr differ ↦ omega (arith, single, rw differ at grown)
    ]

module _ (uuid : ℕ → String) (iso : ℕ → String) where
  record-HasSingle :
      (call : DispatchRecord) (now : ℕ) (db : Database)
      → HasSingle db
      → HasSingle (record_dispatch uuid iso call now db).0
  unfolding record_dispatch
  record-HasSingle call now db single key =
      elim (Option-cases
        (find (has_key call.message.idempotency_key) (values db.outbound_messages))) [
          | inl absent ↦ rw absent (insert-single key _ _ db.outbound_messages (single key) absent)
          | inr (s, found) ↦
              rw found (elim (Bool-cases (s.proof.text_hash == call.result.proof.text_hash)) [
                | inr changed ↦ rw changed (single key)
                | inl same ↦ elim (Bool-cases (should_update s.status call.result.status)) [
                  | inr stays ↦ rw (same, stays) (single key)
                  | inl grows ↦
                      rw
                        (
                          same,
                          grows,
                          count-change_first key call.message.idempotency_key
                              (updated_by call.result) db.outbound_messages (λ t. refl),
                        )
                        (single key)
                ]
              ])
        ]

  -- However dispatches are recorded, no idempotency key comes to have two records.
  pub record_all-HasSingle :
      (calls : List (DispatchRecord × ℕ)) (db : Database)
      → HasSingle db
      → HasSingle (record_all uuid iso calls db)
  unfolding record_all
  record_all-HasSingle [] db single = single
  record_all-HasSingle ((call, now) ∷ calls) db single =
      record_all-HasSingle calls _ (record-HasSingle call now db single)
