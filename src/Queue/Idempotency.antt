-- ===== src/Queue/Idempotency.antt =====
-- packages/db/src/queue.ts: `IdempotencyService`, whose state is a map from keys to records. A call
-- on a key that is not there throws, which is `none`.
pub mod Exclusion
use telegram_job_search_auto.Common.{
  ℕ, String, Bool, true, false, not, ◌&&◌, Option, none, some, List, [], ◌∷◌, if◌then◌else◌, Dict,
  lookup, insert,
}

pub data IdempotencyStatus : Type 0 where
  acquired committed failed released : IdempotencyStatus

pub record IdempotencyRecord : Type 0 where
  pub key : String
  pub entity_type : String
  pub entity_id : String
  pub status : IdempotencyStatus
  pub acquired_at : ℕ
  pub completed_at : Option ℕ
  pub error_message : Option String

abbrev pub Records : Type 0
Records = Dict IdempotencyRecord

pub record Acquisition : Type 0 where
  pub acquired : Bool
  pub record_held : IdempotencyRecord

abbrev pub is_released : IdempotencyStatus → Bool
is_released released = true
is_released _ = false

grant : Records → String → String → String → ℕ → Records × Acquisition
grant records key entity_type entity_id now =
    let fresh : IdempotencyRecord = record {
      key = key;
      entity_type = entity_type;
      entity_id = entity_id;
      status = acquired;
      acquired_at = now;
      completed_at = none;
      error_message = none;
    } in
    (insert key fresh records, record { acquired = true; record_held = fresh })

acquire_over :
    Option IdempotencyRecord → Records → String → String → String → ℕ → Records × Acquisition
unfolding grant
acquire_over none records key entity_type entity_id now =
    grant records key entity_type entity_id now
acquire_over (some existing) records key entity_type entity_id now =
    if not (is_released existing.status)
    then (records, record { acquired = false; record_held = existing })
    else grant records key entity_type entity_id now

unfoldable pub acquire : Records → String → String → String → ℕ → Records × Acquisition
unfolding acquire_over
acquire records key entity_type entity_id now =
    acquire_over (lookup key records) records key entity_type entity_id now

transition_over :
    Option IdempotencyRecord
    → Records
    → String
    → IdempotencyStatus
    → Option String
    → ℕ
    → Option (Records × IdempotencyRecord)
transition_over none records key status error_message now = none
transition_over (some existing) records key status error_message now =
    let updated : IdempotencyRecord = record existing {
      status = status;
      completed_at = some now;
      error_message = error_message;
    } in
    some (insert key updated records, updated)

unfoldable pub transition :
    Records → String → IdempotencyStatus → Option String → ℕ → Option (Records × IdempotencyRecord)
unfolding transition_over
transition records key status error_message now =
    transition_over (lookup key records) records key status error_message now

abbrev pub commit : Records → String → ℕ → Option (Records × IdempotencyRecord)
commit records key now = transition records key committed none now

abbrev pub fail : Records → String → String → ℕ → Option (Records × IdempotencyRecord)
fail records key message now = transition records key failed (some message) now

abbrev pub release : Records → String → ℕ → Option (Records × IdempotencyRecord)
release records key now = transition records key released none now
