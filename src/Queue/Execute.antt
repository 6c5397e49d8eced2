-- ===== src/Queue/Execute.antt =====
-- packages/db/src/queue.ts: `executeQueueTask` over the in-memory task-run store. The handler is the
-- caller's: it acts on a state `W` of its own, and returns a result or throws.
pub mod Outcomes
use telegram_job_search_auto.Common.{
  ℕ, String, Bool, true, false, Option, none, some, List, [], ◌∷◌, if◌then◌else◌, includes,
}
use telegram_job_search_auto.Domain.Json.{Json}
use telegram_job_search_auto.Queue.{QueueTask, TaskRun, Failure}
use telegram_job_search_auto.Queue.TaskRuns.{
  Store, create_queued, mark_running, heartbeat, mark_succeeded, mark_failed, move_to_dead_letter,
  get_task_run,
}

-- How a handler ends: a `QueueWorkerError` carries a code, any other error only a message.
pub data Ending (R : Type 0) : Type 0 where
  returned : R → Ending R
  worker_error : (code message : String) → Ending R
  other_error : (message : String) → Ending R

pub data ExecutionStatus : Type 0 where
  succeeded failed dead_lettered : ExecutionStatus

pub record Execution (R : Type 0) : Type 0 where
  pub task : QueueTask
  pub task_run : Option TaskRun
  pub status : ExecutionStatus
  pub result : Option R
  pub error_code : Option String

-- The `catch` block.
unfoldable pub on_error :
    {R : Type 0} → List String → QueueTask → Failure → ℕ → Store → Store × Execution R
on_error no_retry task error now s =
    let (buried, letter) = move_to_dead_letter task.id error now s in
    let (marked, run) = mark_failed task.id error now s in
    if includes error.code no_retry
    then (
      buried,
      record {
        task = task;
        task_run = get_task_run task.id buried;
        status = dead_lettered;
        result = none;
        error_code = some error.code;
      },
    )
    else (
      marked,
      record {
        task = task;
        task_run = run;
        status = failed;
        result = none;
        error_code = some error.code;
      },
    )

unfoldable pub settle :
    {R : Type 0} → List String → QueueTask → Ending R → ℕ → Store → Store × Execution R
unfolding on_error
settle no_retry task (returned result) now s =
    let (marked, run) = mark_succeeded task.id now s in
    (
      marked,
      record {
        task = task;
        task_run = run;
        status = succeeded;
        result = some result;
        error_code = none;
      },
    )
settle no_retry task (worker_error code message) now s =
    on_error no_retry task (record { code = code; message = message }) now s
settle no_retry task (other_error message) now s =
    on_error no_retry task (record { code = "worker_failed"; message = message }) now s

-- The store when the handler is called.
unfoldable pub begin : QueueTask → ℕ → Store → Store
begin task now s = (heartbeat task.id now (mark_running task.id now (create_queued task s).0).0).0

-- `executeQueueTask`, from the clock at the start and at the end; `noRetryErrorCodes ?? []` is given.
unfoldable pub execute_queue_task :
    {R W : Type 0}
    → List String
    → QueueTask
    → (Json → QueueTask → W → W × Ending R)
    → ℕ
    → ℕ
    → Store
    → W
    → Store × W × Execution R
unfolding settle begin
execute_queue_task no_retry task handler started ended s w =
    let ready = begin task started s in
    let (w', ending) = handler task.payload task w in
    let (s', execution) = settle no_retry task ending ended ready in (s', w', execution)
