-- ===== src/Queue/Adapter.antt =====
-- packages/db/src/queue.ts: `InMemoryQueueAdapter`, with the task-run store it may have been given.
-- The two share the store; the model keeps it as a field of the adapter. A payload that the queue's
-- schema refuses throws, which is `none`.
pub mod Keys
use telegram_job_search_auto.Common.{
  ℕ, ◌-◌, ◌/◌, String, Bool, true, false, not, Option, none, some, List, [], ◌∷◌, ◌++◌, map,
  if◌then◌else◌, Dict, lookup, insert, keep, find, first?, length, nat_eq, or_else, concat, ◌==◌,
}
use telegram_job_search_auto.Domain.Json.{Json}
use telegram_job_search_auto.Limits.{sort}
use telegram_job_search_auto.Queue.{
  QueueName, QueueTask, TaskRun, TaskRunStatus, queue_text, queued, running,
}
use telegram_job_search_auto.Queue.Payload.{accepts, sanitize}
use telegram_job_search_auto.Queue.TaskRuns.{Store, create_queued, get_task_run}

pub record Adapter : Type 0 where
  pub tasks : Dict (List QueueTask)
  pub task_run_store : Option Store

-- `this.tasks.get(queueName) ?? []`
abbrev pub tasks_of : QueueName → Adapter → List QueueTask
tasks_of q a = or_else (lookup (queue_text q) a.tasks) []

abbrev pub task_id : QueueName → String → String
task_id q key = concat (queue_text q ∷ ":" ∷ key ∷ [])

abbrev pub has_key : String → QueueTask → Bool
has_key key t = t.idempotency_key == key

abbrev pub store_created : Option Store → QueueTask → Option Store
store_created none task = none
store_created (some s) task = some (create_queued task s).0

abbrev pub fresh_task : QueueName → Json → String → String → ℕ → QueueTask
fresh_task q payload key dedup_key now = record {
  id = task_id q key;
  queue_name = q;
  payload = sanitize payload;
  idempotency_key = key;
  deduplication_key = dedup_key;
  attempts = 0;
  created_at = now;
}

-- `tasks.push(task)`, the `set` after it, and `createQueued`.
abbrev pub append_task : QueueName → QueueTask → Adapter → Adapter
append_task q task a = record {
  tasks = insert (queue_text q) (tasks_of q a ++ (task ∷ [])) a.tasks;
  task_run_store = store_created a.task_run_store task;
}

enqueue_over :
    Option QueueTask → QueueName → Json → String → String → ℕ → Adapter → Adapter × QueueTask
enqueue_over (some existing) q payload key dedup_key now a = (a, existing)
enqueue_over none q payload key dedup_key now a =
    let task = fresh_task q payload key dedup_key now in (append_task q task a, task)

module _ (shape_ok : QueueName → Json → Bool) where
  unfoldable pub enqueue :
      QueueName → Json → String → String → ℕ → Adapter → Option (Adapter × QueueTask)
  unfolding enqueue_over
  enqueue q payload key dedup_key now a =
      if accepts shape_ok q payload
      then some (enqueue_over (find (has_key key) (tasks_of q a)) q payload key dedup_key now a)
      else none

unfoldable pub remove : QueueTask → Adapter → Adapter × Bool
remove task a =
    let before = tasks_of task.queue_name a in
    let next = keep (λ (t : QueueTask). not (t.id == task.id)) before in
    (
      record a { tasks = insert (queue_text task.queue_name) next a.tasks },
      not (nat_eq (length next) (length before)),
    )

abbrev is_open_status : TaskRunStatus → Bool
is_open_status queued = true
is_open_status running = true
is_open_status _ = false

-- `!taskRun || taskRun.status === "queued" || taskRun.status === "running"`
abbrev pub is_open_run : Option TaskRun → Bool
is_open_run none = true
is_open_run (some run) = is_open_status run.status

abbrev pub run_of : Option Store → String → Option TaskRun
run_of none id = none
run_of (some s) id = get_task_run id s

unfoldable pub pending_tasks : QueueName → Adapter → List QueueTask
pending_tasks q a =
    keep (λ (t : QueueTask). is_open_run (run_of a.task_run_store t.id)) (tasks_of q a)

unfoldable pub depth : QueueName → Adapter → ℕ
unfolding pending_tasks
depth q a = length (pending_tasks q a)

-- `oldestTaskAgeSeconds`; the earliest time 0 counts as none, as it does in the source.
abbrev pub age_since : Option ℕ → ℕ → ℕ
age_since none now = 0
age_since (some oldest) now = if nat_eq oldest 0 then 0 else (now - oldest) / 1000

unfoldable pub oldest_age_seconds : QueueName → ℕ → Adapter → ℕ
unfolding pending_tasks sort
oldest_age_seconds q now a =
    age_since (first? (sort (map (λ (t : QueueTask). t.created_at) (pending_tasks q a)))) now
