-- ===== src/Queue/TaskRuns.antt =====
-- packages/db/src/queue.ts: `InMemoryTaskRunStore`. The store's objects are changed in place in the
-- source; here each operation returns the new store, and the record as it is at that moment. `now`
-- is the clock during the call.
pub mod Invariant
pub mod Letters
use telegram_job_search_auto.Common.{
  ℕ, ◌+◌, String, Bool, true, false, Option, none, some, List, [], ◌∷◌, if◌then◌else◌, Dict, lookup,
  insert, values, keep, concat, or_else,
}
use telegram_job_search_auto.Queue.{
  QueueTask, TaskRun, TaskRunStatus, queued, running, succeeded, failed, dead_lettered, DeadLetter,
  DeadLetterStatus, open_letter, assigned, resolved, discarded, Failure,
}

pub record Store : Type 0 where
  pub task_runs : Dict TaskRun
  pub dead_letters : Dict DeadLetter

abbrev pub fresh_run : QueueTask → TaskRun
fresh_run task = record {
  id = task.id;
  queue_name = task.queue_name;
  payload = task.payload;
  idempotency_key = task.idempotency_key;
  deduplication_key = task.deduplication_key;
  status = queued;
  attempts = 0;
  created_at = task.created_at;
  started_at = none;
  completed_at = none;
  last_heartbeat_at = none;
  error_code = none;
  error_message = none;
}

abbrev pub put_run : TaskRun → Store → Store
put_run run s = record s { task_runs = insert run.id run s.task_runs }

abbrev pub put_letter : DeadLetter → Store → Store
put_letter letter s = record s { dead_letters = insert letter.id letter s.dead_letters }

create_over : Option TaskRun → QueueTask → Store → Store × TaskRun
create_over (some existing) task s = (s, existing)
create_over none task s = (put_run (fresh_run task) s, fresh_run task)

unfoldable pub create_queued : QueueTask → Store → Store × TaskRun
unfolding create_over
create_queued task s = create_over (lookup task.id s.task_runs) task s

abbrev pub get_task_run : String → Store → Option TaskRun
get_task_run id s = lookup id s.task_runs

-- `patch`: the record under the key is changed in place; the key stays.
patch_over : Option TaskRun → String → (TaskRun → TaskRun) → Store → Store × Option TaskRun
patch_over none id change s = (s, none)
patch_over (some existing) id change s =
    (record s { task_runs = insert id (change existing) s.task_runs }, some (change existing))

unfoldable pub patch : String → (TaskRun → TaskRun) → Store → Store × Option TaskRun
unfolding patch_over
patch id change s = patch_over (lookup id s.task_runs) id change s

abbrev pub to_running : ℕ → TaskRun → TaskRun
to_running now r = record r {
  status = running;
  attempts = r.attempts + 1;
  started_at = some now;
  last_heartbeat_at = some now;
}

abbrev pub to_succeeded : ℕ → TaskRun → TaskRun
to_succeeded now r = record r { status = succeeded; completed_at = some now }

abbrev pub to_failed : Failure → ℕ → TaskRun → TaskRun
to_failed error now r = record r {
  status = failed;
  completed_at = some now;
  error_code = some error.code;
  error_message = some error.message;
}

unfoldable pub mark_running : String → ℕ → Store → Store × Option TaskRun
mark_running id now s = patch id (to_running now) s

unfoldable pub heartbeat : String → ℕ → Store → Store × Option TaskRun
heartbeat id now s = patch id (λ r. record r { last_heartbeat_at = some now }) s

unfoldable pub mark_succeeded : String → ℕ → Store → Store × Option TaskRun
mark_succeeded id now s = patch id (to_succeeded now) s

unfoldable pub mark_failed : String → Failure → ℕ → Store → Store × Option TaskRun
mark_failed id error now s = patch id (to_failed error now) s

abbrev pub letter_id : String → String
letter_id task_run_id = concat ("dlq:" ∷ task_run_id ∷ [])

abbrev pub fresh_letter : String → TaskRun → Failure → ℕ → DeadLetter
fresh_letter task_run_id run error now = record {
  id = letter_id task_run_id;
  task_run_id = task_run_id;
  queue_name = run.queue_name;
  payload = run.payload;
  error_code = error.code;
  error_message = error.message;
  status = open_letter;
  assigned_to = none;
  created_at = now;
  updated_at = now;
  resolved_at = none;
  resolved_by = none;
  resolution_note = none;
}

move_over : String → Failure → ℕ → Store × Option TaskRun → Store × Option DeadLetter
move_over id error now (s, none) = (s, none)
move_over id error now (s, some run) =
    let letter = fresh_letter id run error now in
    (
      put_letter letter
          (record s { task_runs = insert id (record run { status = dead_lettered }) s.task_runs }),
      some letter,
    )

unfoldable pub move_to_dead_letter : String → Failure → ℕ → Store → Store × Option DeadLetter
unfolding move_over
move_to_dead_letter id error now s = move_over id error now (mark_failed id error now s)

abbrev pub get_dead_letter : String → Store → Option DeadLetter
get_dead_letter id s = lookup id s.dead_letters

abbrev pub same_letter_status : DeadLetterStatus → DeadLetterStatus → Bool
same_letter_status open_letter open_letter = true
same_letter_status assigned assigned = true
same_letter_status resolved resolved = true
same_letter_status discarded discarded = true
same_letter_status _ _ = false

unfoldable pub list_dead_letters : Option DeadLetterStatus → Store → List DeadLetter
list_dead_letters none s = values s.dead_letters
list_dead_letters (some status) s =
    keep (λ (d : DeadLetter). same_letter_status d.status status) (values s.dead_letters)

abbrev pub is_finished : DeadLetterStatus → Bool
is_finished resolved = true
is_finished discarded = true
is_finished _ = false

-- A change of a dead letter that is there and not finished.
handle_over :
    Option DeadLetter → String → (DeadLetter → DeadLetter) → Store → Store × Option DeadLetter
handle_over none id change s = (s, none)
handle_over (some letter) id change s = if is_finished letter.status then (s, none) else (
  record s { dead_letters = insert id (change letter) s.dead_letters },
  some (change letter),
)

unfoldable pub handle : String → (DeadLetter → DeadLetter) → Store → Store × Option DeadLetter
unfolding handle_over
handle id change s = handle_over (lookup id s.dead_letters) id change s

unfoldable pub assign_dead_letter :
    String → String → String → Option String → ℕ → Store → Store × Option DeadLetter
assign_dead_letter id assignee actor note now s =
    handle id
      (λ d. record d {
        status = assigned;
        assigned_to = some assignee;
        updated_at = now;
        resolution_note = some (or_else note (concat ("assigned by " ∷ actor ∷ [])));
      })
      s

abbrev pub finish : DeadLetterStatus → String → Option String → ℕ → DeadLetter → DeadLetter
finish status actor note now d = record d {
  status = status;
  resolved_at = some now;
  updated_at = now;
  resolved_by = some actor;
  resolution_note = note;
}

unfoldable pub resolve_dead_letter :
    String → String → Option String → ℕ → Store → Store × Option DeadLetter
resolve_dead_letter id actor note now s = handle id (finish resolved actor note now) s

unfoldable pub discard_dead_letter :
    String → String → Option String → ℕ → Store → Store × Option DeadLetter
discard_dead_letter id actor note now s = handle id (finish discarded actor note now) s
