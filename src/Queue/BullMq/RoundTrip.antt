-- ===== src/Queue/BullMq/RoundTrip.antt =====
-- From a task to bullmq's job and back.
use telegram_job_search_auto.Common.{
  ℕ, String, Bool, true, ◌≡◌, refl, ◌||◌, Option, none, some, List, [], ◌∷◌, inl, inr,
  if◌then◌else◌, or_else, any, truthy, has_black, arith, Bool-cases, ◌==◌,
}
use telegram_job_search_auto.Domain.Json.{
  Json, null, bool, num, str, arr, obj, Fields, end, field, get,
}
use telegram_job_search_auto.Queue.{QueueName, QueueTask}
use telegram_job_search_auto.Queue.Payload.{
  accepts, required_any_of, is_filled_text, has_required_identifier, sanitize, sanitize_fields,
  is_secret_key, contains_secret_value,
}
use telegram_job_search_auto.Queue.TaskRuns.{Store}
use telegram_job_search_auto.Queue.Adapter.{fresh_task}
use telegram_job_search_auto.Queue.BullMq.{
  envelope_value, envelope_for, QueueJob, queued_task, enqueue_job, job_to_task, parse_envelope,
  normalize_created_at,
}

filled-redacted :
    (name : String) (v : Json)
    → is_filled_text (some v) ≡ true
    → is_filled_text (
        some
          (if is_secret_key name || contains_secret_value v then str "[redacted]" else sanitize v))
      ≡ true
unfolding sanitize has_black
filled-redacted name (str s) h =
    elim (Bool-cases (is_secret_key name || contains_secret_value (str s))) [
      | inl secret ↦ rw secret refl
      | inr plain ↦ rw plain h
    ]
filled-redacted name null h = cc
filled-redacted name (bool b) h = cc
filled-redacted name (num n) h = cc
filled-redacted name (arr xs) h = cc
filled-redacted name (obj fs) h = cc

any_mono :
    (p q : String → Bool) (keys : List String)
    → ((key : String) → p key ≡ true → q key ≡ true)
    → any p keys ≡ true
    → any q keys ≡ true
any_mono p q [] step h = h
any_mono p q (key ∷ keys) step h = ground (arith, step key, any_mono p q keys step, h)

-- A field that is a text stays one, whether it is redacted or not.
filled-sanitize_fields :
    (key : String) (fs : Fields)
    → is_filled_text (get key fs) ≡ true
    → is_filled_text (get key (sanitize_fields fs)) ≡ true
unfolding get sanitize
filled-sanitize_fields key end h = h
filled-sanitize_fields key (field name v fs) h = elim (Bool-cases (name == key)) [
  | inl here ↦ rw here (filled-redacted name v (rw here at h))
  | inr other ↦ rw other (filled-sanitize_fields key fs (rw other at h))
]

identified-sanitize :
    (keys : List String) (payload : Json)
    → has_required_identifier keys payload ≡ true
    → has_required_identifier keys (sanitize payload) ≡ true
unfolding sanitize
identified-sanitize keys (obj fs) h =
    any_mono (λ key. is_filled_text (get key fs))
      (λ key. is_filled_text (get key (sanitize_fields fs))) keys
      (λ key. filled-sanitize_fields key fs) h
identified-sanitize keys null h = cc
identified-sanitize keys (bool b) h = cc
identified-sanitize keys (num n) h = cc
identified-sanitize keys (str s) h = cc
identified-sanitize keys (arr xs) h = cc

module _ (shape_ok : QueueName → Json → Bool) (iso : ℕ → String) (parse_time : String → Option ℕ)
    (show : ℕ → String) where
  accepts-sanitize :
      (q : QueueName) (payload : Json)
      → accepts shape_ok q payload ≡ true
      → shape_ok q (sanitize payload) ≡ true
      → accepts shape_ok q (sanitize payload) ≡ true
  unfolding accepts
  accepts-sanitize q payload h shape =
      ground (arith, shape, identified-sanitize (required_any_of q) payload)

  sent_by :
      (q : QueueName) (payload : Json) (key dedup_key : String) (now : ℕ) (s : Option Store)
      (after : Option Store) (sent : Json) (task : QueueTask)
      → enqueue_job shape_ok iso q payload key dedup_key none now s ≡ (after, queued_task sent task)
      → (accepts shape_ok q payload ≡ true)
        × (task ≡ fresh_task q payload key dedup_key now)
        × (sent ≡ envelope_value (envelope_for shape_ok iso task))
  unfolding enqueue_job
  sent_by q payload key dedup_key now s after sent task e =
      elim (Bool-cases (accepts shape_ok q payload)) [
        | inl good ↦ ground (arith, rw good at e, good)
        | inr bad ↦ cc (rw bad at e)
      ]

  -- A job that carries what a task was sent as becomes that task again, with the attempts that were
  -- made; provided that the schema takes the redacted payload's shape, the time is read back from
  -- its text, and neither key is empty.
  pub job_to_task-enqueue_job :
      (q : QueueName) (payload : Json) (key dedup_key : String) (now later : ℕ) (s : Option Store)
      (after : Option Store) (sent : Json) (task : QueueTask) (job : QueueJob)
      → enqueue_job shape_ok iso q payload key dedup_key none now s ≡ (after, queued_task sent task)
      → job.data_value ≡ sent
      → shape_ok q (sanitize payload) ≡ true
      → parse_time (iso now) ≡ some now
      → truthy key ≡ true
      → truthy dedup_key ≡ true
      → job_to_task shape_ok parse_time show q job later
        ≡ some (record task { attempts = or_else job.attempts_made 0 })
  unfolding enqueue_job job_to_task parse_envelope normalize_created_at get
  job_to_task-enqueue_job q payload key dedup_key now later s after sent task job e carried shape
        time keyed deduped =
      let (good, made, carries) = sent_by q payload key dedup_key now s after sent task e in
      rw (carried, carries, made, accepts-sanitize q payload good shape, keyed, deduped, time) refl
