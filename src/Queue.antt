-- ===== src/Queue.antt =====
-- packages/db/src/queue.ts: the queues, their policies, tasks, task runs and dead letters. Times are
-- milliseconds; payloads are JSON values.
pub mod Payload
pub mod Idempotency
pub mod TaskRuns
pub mod Execute
pub mod Adapter
pub mod BullMq
pub mod Tests
use telegram_job_search_auto.Common.{
  ℕ, String, Bool, true, false, not, ◌||◌, Option, List, [], ◌∷◌, if◌then◌else◌, includes, ◌==◌,
  text_includes, ◌≡◌, arith,
}
use telegram_job_search_auto.Domain.Json.{Json}

pub data QueueName : Type 0 where
  source_poll telegram_channel_ingest parsing dedup scoring resume_selection : QueueName
  application_generation auto_apply inbox_sync message_classification reply_generation : QueueName
  reply_dispatch interview_coordination digest canary retry dead_letter : QueueName

abbrev pub queue_text : QueueName → String
queue_text source_poll = "source_poll_queue"
queue_text telegram_channel_ingest = "telegram_channel_ingest_queue"
queue_text parsing = "parsing_queue"
queue_text dedup = "dedup_queue"
queue_text scoring = "scoring_queue"
queue_text resume_selection = "resume_selection_queue"
queue_text application_generation = "application_generation_queue"
queue_text auto_apply = "auto_apply_queue"
queue_text inbox_sync = "inbox_sync_queue"
queue_text message_classification = "message_classification_queue"
queue_text reply_generation = "reply_generation_queue"
queue_text reply_dispatch = "reply_dispatch_queue"
queue_text interview_coordination = "interview_coordination_queue"
queue_text digest = "digest_queue"
queue_text canary = "canary_queue"
queue_text retry = "retry_queue"
queue_text dead_letter = "dead_letter_queue"

pub record QueuePolicy : Type 0 where
  pub queue_name : QueueName
  pub attempts : ℕ
  pub backoff_ms : ℕ
  pub concurrency : ℕ
  pub timeout_ms : ℕ
  pub no_retry_error_codes : List String
  pub blocks_when_paused : Bool

abbrev pub no_retry_codes : List String
no_retry_codes =
    "captcha_required" ∷ "selector_missing" ∷ "policy_failed" ∷ "duplicate_company_thread_detected"
    ∷ "provider_terms_block" ∷ "anti_automation_detected" ∷ []

-- `queuePolicies[queueName]`
unfoldable pub queue_policy : QueueName → QueuePolicy
unfolding text_includes
queue_policy q =
    let name = queue_text q in
    let sends = (name == "auto_apply_queue") || (name == "reply_dispatch_queue") in
    record {
      queue_name = q;
      attempts = if name == "dead_letter_queue" then 1 else 3;
      backoff_ms = if sends then 60000 else 30000;
      concurrency = if sends then 1 else 4;
      timeout_ms =
          if text_includes "apply" name || text_includes "canary" name then 120000 else 30000;
      no_retry_error_codes = no_retry_codes;
      blocks_when_paused = not (
          includes name (
            "source_poll_queue" ∷ "telegram_channel_ingest_queue" ∷ "parsing_queue" ∷ "dedup_queue"
            ∷ "scoring_queue" ∷ "digest_queue" ∷ "canary_queue" ∷ []));
    }

pub record QueueTask : Type 0 where
  pub id : String
  pub queue_name : QueueName
  pub payload : Json
  pub idempotency_key : String
  pub deduplication_key : String
  pub attempts : ℕ
  pub created_at : ℕ

pub data TaskRunStatus : Type 0 where
  queued running succeeded failed dead_lettered : TaskRunStatus

pub record TaskRun : Type 0 where
  pub id : String
  pub queue_name : QueueName
  pub payload : Json
  pub idempotency_key : String
  pub deduplication_key : String
  pub status : TaskRunStatus
  pub attempts : ℕ
  pub created_at : ℕ
  pub started_at : Option ℕ
  pub completed_at : Option ℕ
  pub last_heartbeat_at : Option ℕ
  pub error_code : Option String
  pub error_message : Option String

pub data DeadLetterStatus : Type 0 where
  open_letter assigned resolved discarded : DeadLetterStatus

pub record DeadLetter : Type 0 where
  pub id : String
  pub task_run_id : String
  pub queue_name : QueueName
  pub payload : Json
  pub error_code : String
  pub error_message : String
  pub status : DeadLetterStatus
  pub assigned_to : Option String
  pub created_at : ℕ
  pub updated_at : ℕ
  pub resolved_at : Option ℕ
  pub resolved_by : Option String
  pub resolution_note : Option String

-- `{ code, message }`
pub record Failure : Type 0 where
  pub code : String
  pub message : String
