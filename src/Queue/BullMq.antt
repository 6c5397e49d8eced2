-- ===== src/Queue/BullMq.antt =====
-- packages/db/src/queue.ts: `BullMqQueueAdapter.enqueue`, `bullMqJobToQueueTask` and
-- `executeBullMqQueueJob`. The queue itself is bullmq's: `thrown` is what its `add` throws, and a
-- job is what it hands to the worker. `iso` is `toISOString`, `parse_time` is `Date.parse` where it
-- is finite, `show` is the decimal text of a number. The data of a job is a JSON value; a key of its
-- metadata that is no text, which the type rules out, is read as the empty text.
pub mod RoundTrip
use telegram_job_search_auto.Common.{
  ℕ, String, Bool, true, false, ◌&&◌, Option, none, some, if◌then◌else◌, or_else, is_some, truthy,
  has_black, concat, List, [], ◌∷◌,
}
use telegram_job_search_auto.Domain.Json.{Json, str, obj, Fields, end, field, get}
use telegram_job_search_auto.Queue.{QueueName, QueueTask, QueuePolicy, queue_policy, Failure}
use telegram_job_search_auto.Queue.Payload.{accepts, sanitize}
use telegram_job_search_auto.Queue.TaskRuns.{Store, mark_failed}
use telegram_job_search_auto.Queue.Adapter.{task_id, fresh_task, store_created}
use telegram_job_search_auto.Queue.Execute.{
  Ending, Execution, ExecutionStatus, succeeded, failed, dead_lettered, execute_queue_task,
}

pub data JobId : Type 0 where
  text : String → JobId
  number : ℕ → JobId

-- `BullMqQueueJobLike`
pub record QueueJob : Type 0 where
  pub id : Option JobId
  pub data_value : Json
  pub timestamp : Option ℕ
  pub attempts_made : Option ℕ

pub record Metadata : Type 0 where
  pub idempotency_key : String
  pub deduplication_key : String
  pub created_at : String

-- `BullMqQueueJobEnvelope`
pub record Envelope : Type 0 where
  pub payload : Json
  pub metadata : Metadata

-- The value that an envelope is.
abbrev pub envelope_value : Envelope → Json
envelope_value e = obj (
    field "payload" e.payload (
      field "metadata"
        (obj (
          field "idempotencyKey" (str e.metadata.idempotency_key) (
            field "deduplicationKey" (str e.metadata.deduplication_key)
              (field "createdAt" (str e.metadata.created_at) end))))
        end))

text_of : Option Json → String
text_of (some (str s)) = s
text_of _ = ""

bare : Json → Envelope
bare value = record {
  payload = value;
  metadata = record { idempotency_key = ""; deduplication_key = ""; created_at = "" };
}

-- The fields of an object that has a payload and a metadata object with both keys.
envelope_of : Option Json → Option Json → Json → Envelope
unfolding text_of bare get
envelope_of (some payload) (some (obj fields)) value =
    if is_some (get "idempotencyKey" fields) && is_some (get "deduplicationKey" fields)
    then record {
      payload = payload;
      metadata = record {
        idempotency_key = text_of (get "idempotencyKey" fields);
        deduplication_key = text_of (get "deduplicationKey" fields);
        created_at = text_of (get "createdAt" fields);
      };
    }
    else bare value
envelope_of _ _ value = bare value

-- `parseBullMqJobEnvelope`
unfoldable pub parse_envelope : Json → Envelope
unfolding envelope_of bare get
parse_envelope (obj fields) =
    envelope_of (get "payload" fields) (get "metadata" fields) (obj fields)
parse_envelope value = bare value

module _ (show : ℕ → String) where
  -- `normalizeBullMqJobId`; the last case is `stableQueueId`.
  unfoldable pub normalize_job_id : Option JobId → ℕ → String
  normalize_job_id (some (text id)) now =
      if has_black id then id else concat ("job:" ∷ show now ∷ [])
  normalize_job_id (some (number id)) now = show id
  normalize_job_id none now = concat ("job:" ∷ show now ∷ [])

abbrev either : String → String → String
either s fallback = if truthy s then s else fallback

-- What `executeBullMqQueueJob` comes to: a refused payload or a retryable failure is thrown.
pub data JobEnd (R : Type 0) : Type 0 where
  refused : JobEnd R
  retried : (code message : String) → JobEnd R
  done : Execution R → JobEnd R

job_end : {R : Type 0} → Execution R → JobEnd R
job_end execution = elim execution.status [
  | failed ↦
      retried (or_else execution.error_code "worker_failed")
        (concat ("Retryable queue failure: " ∷ or_else execution.error_code "worker_failed" ∷ []))
  | _ ↦ done execution
]

execute_over :
    {R W : Type 0}
    → Option QueueTask
    → List String
    → (Json → QueueTask → W → W × Ending R)
    → ℕ
    → ℕ
    → Store
    → W
    → Store × W × JobEnd R
unfolding job_end
execute_over none no_retry handler started ended s w = (s, w, refused)
execute_over (some task) no_retry handler started ended s w =
    let (s', w', execution) = execute_queue_task no_retry task handler started ended s w in
    (s', w', job_end execution)

pub data Enqueued : Type 0 where
  refused_payload : Enqueued
  not_added : (message : String) → Enqueued
  queued_task : (sent : Json) → QueueTask → Enqueued

fail_run : Option Store → QueueTask → String → ℕ → Option Store
fail_run none task message now = none
fail_run (some s) task message now =
    some
      (mark_failed task.id (record { code = "bullmq_enqueue_failed"; message = message }) now s).0

module _ (shape_ok : QueueName → Json → Bool) (parse_time : String → Option ℕ)
    (show : ℕ → String) where
  -- `normalizeBullMqCreatedAt`
  unfoldable pub normalize_created_at : String → Option ℕ → ℕ → ℕ
  normalize_created_at created_at timestamp now =
      or_else (parse_time created_at) (or_else timestamp now)

  -- `bullMqJobToQueueTask`; a payload that the queue's schema refuses throws, which is `none`.
  unfoldable pub job_to_task : QueueName → QueueJob → ℕ → Option QueueTask
  unfolding normalize_created_at normalize_job_id parse_envelope
  job_to_task q job now =
      let envelope = parse_envelope job.data_value in
      let key = either envelope.metadata.idempotency_key (normalize_job_id show job.id now) in
      if accepts shape_ok q envelope.payload
      then some (record {
        id = task_id q key;
        queue_name = q;
        payload = envelope.payload;
        idempotency_key = key;
        deduplication_key = either envelope.metadata.deduplication_key key;
        attempts = or_else job.attempts_made 0;
        created_at = normalize_created_at envelope.metadata.created_at job.timestamp now;
      })
      else none

  -- `executeBullMqQueueJob`
  unfoldable pub execute_job :
      {R W : Type 0}
      → QueueName
      → QueueJob
      → Option (List String)
      → (Json → QueueTask → W → W × Ending R)
      → ℕ
      → ℕ
      → Store
      → W
      → Store × W × JobEnd R
  unfolding execute_over
  execute_job q job no_retry handler started ended s w =
      execute_over (job_to_task q job started)
        (or_else no_retry (queue_policy q).no_retry_error_codes) handler started ended s w

module _ (shape_ok : QueueName → Json → Bool) (iso : ℕ → String) where
  -- What `add` is given besides the name of the queue and the job's options.
  abbrev pub envelope_for : QueueTask → Envelope
  envelope_for task = record {
    payload = task.payload;
    metadata = record {
      idempotency_key = task.idempotency_key;
      deduplication_key = task.deduplication_key;
      created_at = iso task.created_at;
    };
  }

  settle_added : Option (String × ℕ) → QueueTask → Option Store → Option Store × Enqueued
  unfolding fail_run
  settle_added none task s = (s, queued_task (envelope_value (envelope_for task)) task)
  settle_added (some (message, at)) task s = (fail_run s task message at, not_added message)

  -- `BullMqQueueAdapter.enqueue`; `thrown` is the error that `add` throws, if any, and when.
  unfoldable pub enqueue_job :
      QueueName
      → Json
      → String
      → String
      → (thrown : Option (String × ℕ)) → ℕ
      → Option Store
      → Option Store × Enqueued
  unfolding settle_added
  enqueue_job q payload key dedup_key thrown now s =
      let task = fresh_task q payload key dedup_key now in
      if accepts shape_ok q payload
      then settle_added thrown task (store_created s task)
      else (s, refused_payload)
