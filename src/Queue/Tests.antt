-- ===== src/Queue/Tests.antt =====
-- The queues at concrete inputs.
use telegram_job_search_auto.Common.{
  ℕ, ◌+◌, String, Bool, true, false, ◌≡◌, ◌≢◌, refl, Option, none, some, List, [], ◌∷◌, lookup,
  eq_iff, has_black, is_space,
}
use telegram_job_search_auto.Domain.Json.{Json, get, str, arr, obj, nil, cons, end, field}
use telegram_job_search_auto.Queue.{QueueName, auto_apply, QueueTask, DeadLetter, resolved, Failure}
use telegram_job_search_auto.Queue.Payload.{accepts, required_any_of, sanitize}
use telegram_job_search_auto.Queue.Payload.Redaction.{IsClean, sanitize-IsClean}
use telegram_job_search_auto.Queue.Idempotency.{acquire}
use telegram_job_search_auto.Queue.Idempotency.Exclusion as Exclusion
use telegram_job_search_auto.Queue.TaskRuns.{Store, letter_id, fresh_letter, fresh_run, finish}
use telegram_job_search_auto.Queue.TaskRuns.Invariant as Invariant
use telegram_job_search_auto.Queue.TaskRuns.Letters.{IsClosed, perform_all-IsClosed}
use telegram_job_search_auto.Queue.Execute.{Ending, worker_error}
use telegram_job_search_auto.Queue.Adapter.{Adapter, fresh_task}
use telegram_job_search_auto.Queue.Adapter.Keys as Keys
use telegram_job_search_auto.Queue.BullMq.{
  QueueJob, queued_task, enqueue_job, job_to_task, envelope_value, envelope_for,
}
use telegram_job_search_auto.Queue.BullMq.RoundTrip.{job_to_task-enqueue_job}

abbrev any_shape : QueueName → Json → Bool
any_shape q payload = true

abbrev payload : Json
payload = obj (
    field "applicationId" (str "app-1")
      (field "apiToken" (str "abc") (field "notes" (arr (cons (str "token=abc") nil)) end)))

abbrev task : QueueTask
task = record {
  id = "auto_apply_queue:k1";
  queue_name = auto_apply;
  payload = payload;
  idempotency_key = "k1";
  deduplication_key = "d1";
  attempts = 0;
  created_at = 1000;
}

abbrev failure : Failure
failure = record { code = "captcha_required"; message = "captcha" }

abbrev no_store : Store
no_store = record { task_runs = []; dead_letters = [] }

abbrev one_run : Store
one_run = record { task_runs = ("auto_apply_queue:k1", fresh_run task) ∷ []; dead_letters = [] }

abbrev letter : DeadLetter
letter = fresh_letter "auto_apply_queue:k1" (fresh_run task) failure 2000

first_acquired : (acquire [] "k" "application" "app-1" 1).1.acquired ≡ true
unfolding acquire lookup
first_acquired = refl

acquire-acquire_example :
    let taken = (acquire [] "k" "application" "app-1" 1).0 in
    let later = Exclusion.perform_all taken ((Exclusion.commit_call "k", 2) ∷ []) in
    ((acquire later "k" "application" "app-2" 3).1.acquired ≡ false)
    × ((acquire later "k" "application" "app-2" 3).0 ≡ later)
acquire-acquire_example =
    Exclusion.acquire-acquire "k" "application" "app-1" "application" "app-2" [] 1 3
      ((Exclusion.commit_call "k", 2) ∷ []) first_acquired (λ h. h, tt)

no_store-IsValid : Invariant.IsValid no_store
unfolding lookup
no_store-IsValid = record { runs = λ k. tt; letters = λ k. tt }

abbrev calls : List (Invariant.Call × ℕ)
calls =
    (Invariant.create task, 1000)
    ∷ (Invariant.start "auto_apply_queue:k1", 1500)
    ∷ (Invariant.bury "auto_apply_queue:k1" failure, 2000)
    ∷ []

perform_all-IsValid_example : Invariant.IsValid (Invariant.perform_all calls no_store)
perform_all-IsValid_example = Invariant.perform_all-IsValid calls no_store no_store-IsValid

abbrev closed_letter : DeadLetter
closed_letter = finish resolved "ops" none 3000 letter

abbrev one_letter : Store
one_letter = record one_run { dead_letters = (letter_id "auto_apply_queue:k1", closed_letter) ∷ [] }

one_letter-IsClosed : IsClosed (letter_id "auto_apply_queue:k1") closed_letter one_letter
unfolding lookup
one_letter-IsClosed = (refl, refl)

abbrev later_calls : List (Invariant.Call × ℕ)
later_calls =
    (Invariant.create task, 4000)
    ∷ (Invariant.assign (letter_id "auto_apply_queue:k1") "someone" "ops" none, 5000)
    ∷ []

perform_all-IsClosed_example :
    IsClosed
      (letter_id "auto_apply_queue:k1")
      closed_letter
      (Invariant.perform_all later_calls one_letter)
perform_all-IsClosed_example =
    perform_all-IsClosed (letter_id "auto_apply_queue:k1") closed_letter later_calls one_letter
      one_letter-IsClosed (λ h. h, (λ h. h, tt))

one_run_there : lookup "auto_apply_queue:k1" one_run.task_runs ≡ some (fresh_run task)
unfolding lookup
one_run_there = refl

abbrev other_run : String
other_run = "digest_queue:k2"

other_id : task.id ≢ other_run
other_id e = cc ((eq_iff _ _).1 e)

other_letter : letter_id "auto_apply_queue:k1" ≢ "dlq:digest_queue:k2"
other_letter e = cc ((eq_iff _ _).1 e)

abbrev counting : Json → QueueTask → ℕ → ℕ × Ending String
counting p t n = (n + 1, worker_error "captcha_required" "captcha")

sanitize-IsClean_example : IsClean (sanitize payload)
sanitize-IsClean_example = sanitize-IsClean payload

abbrev idle : Adapter
idle = record { tasks = []; task_run_store = some no_store }

idle-IsValid : Keys.IsValid idle
unfolding lookup
idle-IsValid name = (tt, tt)

abbrev adapter_calls : List Keys.Call
adapter_calls =
    Keys.enqueue_call auto_apply payload "k1" "d1" 1000
    ∷ Keys.enqueue_call auto_apply payload "k1" "d2" 2000
    ∷ Keys.remove_call task
    ∷ []

perform_all-IsQueue_example : Keys.IsValid (Keys.perform_all any_shape idle adapter_calls)
perform_all-IsQueue_example = Keys.perform_all-IsQueue any_shape idle adapter_calls idle-IsValid

payload_accepted : accepts any_shape auto_apply payload ≡ true
unfolding accepts required_any_of get has_black is_space
payload_accepted = refl

-- Every time is read as the one at which the task is sent.
abbrev iso : ℕ → String
iso n = "2026-05-18T00:00:00.000Z"

abbrev at_7 : String → Option ℕ
at_7 text = some 7

abbrev no_digits : ℕ → String
no_digits n = ""

abbrev job_task : QueueTask
job_task = fresh_task auto_apply payload "k1" "d1" 7

abbrev job : QueueJob
job = record {
  id = none;
  data_value = envelope_value (envelope_for any_shape iso job_task);
  timestamp = none;
  attempts_made = some 1;
}

job_sent :
    enqueue_job any_shape iso auto_apply payload "k1" "d1" none 7 none
    ≡ (none, queued_task (envelope_value (envelope_for any_shape iso job_task)) job_task)
unfolding enqueue_job accepts required_any_of get has_black is_space
job_sent = refl

job_to_task-enqueue_job_example :
    job_to_task any_shape at_7 no_digits auto_apply job 9 ≡ some (record job_task { attempts = 1 })
job_to_task-enqueue_job_example =
    job_to_task-enqueue_job any_shape iso at_7 no_digits auto_apply payload "k1" "d1" 7 9 none none
      (envelope_value (envelope_for any_shape iso job_task)) job_task job job_sent refl refl refl
      refl refl
