-- ===== src/Queue/TaskRuns/Letters.antt =====
-- The life of a dead letter.
use telegram_job_search_auto.Common.{
  ℕ, String, true, false, ◌≡◌, ◌≢◌, refl, ◌∙◌, inl, inr, Option, some, List, [], ◌∷◌, lookup,
  lookup-insert_self, lookup-insert_ne, Option-cases, Bool-cases, All,
}
use telegram_job_search_auto.Queue.{TaskRun, DeadLetter, Failure, dead_lettered, QueueTask}
use telegram_job_search_auto.Queue.TaskRuns.{
  Store, create_queued, patch, mark_running, heartbeat, mark_succeeded, mark_failed,
  move_to_dead_letter, handle, assign_dead_letter, resolve_dead_letter, discard_dead_letter,
  letter_id, fresh_letter, is_finished,
}
use telegram_job_search_auto.Queue.TaskRuns.Invariant.{
  Call, create, start, beat, succeed, fail, bury, assign, resolve, discard, perform, perform_all,
}

-- A burial of the run that the dead letter is about.
abbrev pub Buries : String → Call → Type 0
Buries letter (bury id e) = letter_id id ≡ letter
Buries letter _ = ⊥

abbrev pub Spares : String → Call × ℕ → Type 0
Spares letter c = ¬ Buries letter c.0

-- The letter is there, and finished.
abbrev pub IsClosed : String → DeadLetter → Store → Type 0
IsClosed letter d s = (lookup letter s.dead_letters ≡ some d) × (is_finished d.status ≡ true)

create-letters :
    (task : QueueTask) (s : Store) → (create_queued task s).0.dead_letters ≡ s.dead_letters
unfolding create_queued
create-letters task s = elim (Option-cases (lookup task.id s.task_runs)) [
  | inl free ↦ rw free refl
  | inr (old, there) ↦ rw there refl
]

patch-letters :
    (id : String) (change : TaskRun → TaskRun) (s : Store)
    → (patch id change s).0.dead_letters ≡ s.dead_letters
unfolding patch
patch-letters id change s = elim (Option-cases (lookup id s.task_runs)) [
  | inl free ↦ rw free refl
  | inr (old, there) ↦ rw there refl
]

clash :
    {o : Option DeadLetter} (d old : DeadLetter)
    → o ≡ some d
    → o ≡ some old
    → is_finished d.status ≡ true
    → is_finished old.status ≡ false
    → ⊥
clash d old a b done live =
    let same : d ≡ old = cc in let e : is_finished d.status ≡ false = rw same live in cc

handle-IsClosed :
    (id letter : String) (change : DeadLetter → DeadLetter) (d : DeadLetter) (s : Store)
    → IsClosed letter d s
    → IsClosed letter d (handle id change s).0
unfolding handle
handle-IsClosed id letter change d s (there, done) =
    elim (Option-cases (lookup id s.dead_letters)) [
      | inl free ↦ rw free (there, done)
      | inr (old, here) ↦ elim (Bool-cases (is_finished old.status)) [
        | inl over ↦ rw (here, over) (there, done)
        | inr live ↦
            rw (here, live)
              (
                lookup-insert_ne id letter (change old) s.dead_letters
                      (λ same. clash d old there (rw same at here) done live)
                    ∙ there,
                done,
              )
      ]
    ]

bury-IsClosed :
    (id letter : String) (e : Failure) (now : ℕ) (d : DeadLetter) (s : Store)
    → letter_id id ≢ letter
    → IsClosed letter d s
    → IsClosed letter d (move_to_dead_letter id e now s).0
unfolding move_to_dead_letter mark_failed patch
bury-IsClosed id letter e now d s other (there, done) =
    elim (Option-cases (lookup id s.task_runs)) [
      | inl free ↦ rw free (there, done)
      | inr (old, here) ↦
          rw here (lookup-insert_ne (letter_id id) letter _ s.dead_letters other ∙ there, done)
    ]

perform-IsClosed :
    (letter : String) (d : DeadLetter) (c : Call) (now : ℕ) (s : Store)
    → ¬ Buries letter c
    → IsClosed letter d s
    → IsClosed letter d (perform c now s)
unfolding perform mark_running heartbeat mark_succeeded mark_failed assign_dead_letter
    resolve_dead_letter discard_dead_letter
perform-IsClosed letter d (create task) now s q h = rw create-letters h
perform-IsClosed letter d (start id) now s q h = rw patch-letters h
perform-IsClosed letter d (beat id) now s q h = rw patch-letters h
perform-IsClosed letter d (succeed id) now s q h = rw patch-letters h
perform-IsClosed letter d (fail id e) now s q h = rw patch-letters h
perform-IsClosed letter d (bury id e) now s q h = bury-IsClosed id letter e now d s q h
perform-IsClosed letter d (assign id a b n) now s q h = handle-IsClosed id letter _ d s h
perform-IsClosed letter d (resolve id a n) now s q h = handle-IsClosed id letter _ d s h
perform-IsClosed letter d (discard id a n) now s q h = handle-IsClosed id letter _ d s h

-- A resolved or discarded dead letter is final: whatever else is called, it stays exactly as it is,
-- until its own task run is moved to the dead letters again.
pub perform_all-IsClosed :
    (letter : String) (d : DeadLetter) (cs : List (Call × ℕ)) (s : Store)
    → IsClosed letter d s
    → All (Spares letter) cs
    → IsClosed letter d (perform_all cs s)
unfolding perform_all
perform_all-IsClosed letter d [] s h q = h
perform_all-IsClosed letter d ((c, now) ∷ cs) s h q =
    perform_all-IsClosed letter d cs (perform c now s) (perform-IsClosed letter d c now s q.0 h) q.1

-- Moving a run that is there to the dead letters makes it "dead_lettered" with the error, and opens
-- an unassigned letter for it even where an earlier one was resolved or discarded; every other run
-- and every other letter stays.
pub move_to_dead_letter-opens :
    (id other letter : String) (e : Failure) (now : ℕ) (run : TaskRun) (s : Store)
    → lookup id s.task_runs ≡ some run
    → id ≢ other
    → letter_id id ≢ letter
    → let after = (move_to_dead_letter id e now s).0 in
      (lookup id after.task_runs
        ≡ some (record run {
          status = dead_lettered;
          completed_at = some now;
          error_code = some e.code;
          error_message = some e.message;
        }))
      × (lookup (letter_id id) after.dead_letters ≡ some (fresh_letter id run e now))
      × (lookup other after.task_runs ≡ lookup other s.task_runs)
      × (lookup letter after.dead_letters ≡ lookup letter s.dead_letters)
unfolding move_to_dead_letter mark_failed patch
move_to_dead_letter-opens id other letter e now run s here o l = rw here (
  lookup-insert_self id _ _,
  lookup-insert_self _ _ _,
  lookup-insert_ne id other _ _ o ∙ lookup-insert_ne id other _ s.task_runs o,
  lookup-insert_ne (letter_id id) letter _ s.dead_letters l,
)
