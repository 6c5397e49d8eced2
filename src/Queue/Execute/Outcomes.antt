-- ===== src/Queue/Execute/Outcomes.antt =====
-- What `executeQueueTask` leaves behind, however the handler ends.
use telegram_job_search_auto.Common.{
  ℕ, ◌+◌, String, true, false, ◌≡◌, ◌⊎◌, Option, none, some, List, [], ◌∷◌, concat, lookup,
  includes,
}
use telegram_job_search_auto.Domain.Json.{Json}
use telegram_job_search_auto.Queue.{
  QueueTask, TaskRun, TaskRunStatus, DeadLetter, DeadLetterStatus, Failure,
}
use telegram_job_search_auto.Queue.TaskRuns.{Store}
use telegram_job_search_auto.Queue.Execute.{
  Ending, returned, worker_error, other_error, ExecutionStatus, Execution,
}

-- The run that was there, or else a new one of the task that has not been tried.
abbrev pub prior_run : QueueTask → Option TaskRun → TaskRun
prior_run task none = record {
  id = task.id;
  queue_name = task.queue_name;
  payload = task.payload;
  idempotency_key = task.idempotency_key;
  deduplication_key = task.deduplication_key;
  status = TaskRunStatus.queued;
  attempts = 0;
  created_at = task.created_at;
  started_at = none;
  completed_at = none;
  last_heartbeat_at = none;
  error_code = none;
  error_message = none;
}
prior_run task (some run) = run

-- The run as the handler finds it: running since `now`, with one attempt more.
abbrev pub running_run : QueueTask → ℕ → Store → TaskRun
running_run task now s = record (prior_run task (lookup task.id s.task_runs)) {
  status = TaskRunStatus.running;
  attempts = (prior_run task (lookup task.id s.task_runs)).attempts + 1;
  started_at = some now;
  last_heartbeat_at = some now;
}

-- A run that ended at `now` without an error.
abbrev succeeded_run : ℕ → TaskRun → TaskRun
succeeded_run now run = record run { status = TaskRunStatus.succeeded; completed_at = some now }

-- A run that ended at `now` with an error, in one of the two statuses for that.
abbrev ended_run : TaskRunStatus → Failure → ℕ → TaskRun → TaskRun
ended_run status error now run = record run {
  status = status;
  completed_at = some now;
  error_code = some error.code;
  error_message = some error.message;
}

-- The letter of a run: nobody has it, and nothing has been done about it.
abbrev open_letter_of : QueueTask → TaskRun → Failure → ℕ → DeadLetter
open_letter_of task run error now = record {
  id = concat ("dlq:" ∷ task.id ∷ []);
  task_run_id = task.id;
  queue_name = run.queue_name;
  payload = run.payload;
  error_code = error.code;
  error_message = error.message;
  status = DeadLetterStatus.open_letter;
  assigned_to = none;
  created_at = now;
  updated_at = now;
  resolved_at = none;
  resolved_by = none;
  resolution_note = none;
}

-- A task that succeeded: its run, no dead letter, its result.
abbrev Succeeds : {R : Type 0} → QueueTask → TaskRun → R → ℕ → Store → Store × Execution R → Type 0
Succeeds task run result now s (s', x) =
    (lookup task.id s'.task_runs ≡ some (succeeded_run now run))
    × (s'.dead_letters ≡ s.dead_letters)
    × (x.status ≡ ExecutionStatus.succeeded)
    × (x.result ≡ some result)
    × (x.error_code ≡ none)
    × (x.task_run ≡ lookup task.id s'.task_runs)

-- A task that failed for now: its run with the error, no dead letter.
abbrev Fails :
    {R : Type 0} → QueueTask → TaskRun → Failure → ℕ → Store → Store × Execution R → Type 0
Fails task run error now s (s', x) =
    (lookup task.id s'.task_runs ≡ some (ended_run TaskRunStatus.failed error now run))
    × (s'.dead_letters ≡ s.dead_letters)
    × (x.status ≡ ExecutionStatus.failed)
    × (x.result ≡ none)
    × (x.error_code ≡ some error.code)
    × (x.task_run ≡ lookup task.id s'.task_runs)

-- A task that is not to be retried: its run is dead-lettered, and an open letter tells the error.
abbrev Dies : {R : Type 0} → QueueTask → TaskRun → Failure → ℕ → Store × Execution R → Type 0
Dies task run error now (s', x) =
    (lookup task.id s'.task_runs ≡ some (ended_run TaskRunStatus.dead_lettered error now run))
    × (lookup (concat ("dlq:" ∷ task.id ∷ [])) s'.dead_letters
        ≡ some (open_letter_of task run error now))
    × (x.status ≡ ExecutionStatus.dead_lettered)
    × (x.result ≡ none)
    × (x.error_code ≡ some error.code)
    × (x.task_run ≡ lookup task.id s'.task_runs)

abbrev Errs :
    {R : Type 0}
    → List String
    → QueueTask
    → TaskRun
    → Failure
    → ℕ
    → Store
    → Store × Execution R
    → Type 0
Errs no_retry task run error now s out =
    ((includes error.code no_retry ≡ true) × Dies task run error now out)
    ⊎ ((includes error.code no_retry ≡ false) × Fails task run error now s out)

abbrev pub Leaves :
    {R : Type 0}
    → List String
    → QueueTask
    → TaskRun
    → Ending R
    → ℕ
    → Store
    → Store × Execution R
    → Type 0
Leaves no_retry task run (returned result) now s out = Succeeds task run result now s out
Leaves no_retry task run (worker_error code message) now s out =
    Errs no_retry task run (record { code = code; message = message }) now s out
Leaves no_retry task run (other_error message) now s out =
    Errs no_retry task run (record { code = "worker_failed"; message = message }) now s out
