-- ===== src/Queue/TaskRuns/Invariant.antt =====
-- The well-formedness of a task-run store, kept by every operation.
use telegram_job_search_auto.Common.{
  ℕ, String, ◌≡◌, refl, ap, subst, sym, ◌∙◌, inl, inr, Option, none, some, List, [], ◌∷◌, Dict,
  lookup, insert, lookup-insert, lookup-insert_self, eq_iff, ◌==◌, Option-cases, Bool-cases,
}
use telegram_job_search_auto.Queue.{QueueTask, TaskRun, dead_lettered, DeadLetter, Failure}
use telegram_job_search_auto.Queue.TaskRuns.{
  Store, create_queued, patch, mark_running, heartbeat, mark_succeeded, mark_failed,
  move_to_dead_letter, handle, assign_dead_letter, resolve_dead_letter, discard_dead_letter,
  letter_id, fresh_run, fresh_letter, put_letter, is_finished, to_failed,
}

-- Every run stands under its own id; every dead letter stands under the id made from its run's, and
-- its run is there, on the same queue.
abbrev RunIsFiled : String → Option TaskRun → Type 0
RunIsFiled k none = Unit
RunIsFiled k (some r) = r.id ≡ k

abbrev RunIsThere : DeadLetter → Option TaskRun → Type 0
RunIsThere d none = ⊥
RunIsThere d (some r) = r.queue_name ≡ d.queue_name

abbrev LetterIsFiled : String → Option DeadLetter → Dict TaskRun → Type 0
LetterIsFiled k none runs = Unit
LetterIsFiled k (some d) runs =
    (d.id ≡ k) × (k ≡ letter_id d.task_run_id) × RunIsThere d (lookup d.task_run_id runs)

pub record IsValid (s : Store) : Type 0 where
  pub runs : (k : String) → RunIsFiled k (lookup k s.task_runs)
  pub letters : (k : String) → LetterIsFiled k (lookup k s.dead_letters) s.task_runs

pub data Call : Type 0 where
  create : QueueTask → Call
  start beat succeed : String → Call
  fail bury : String → Failure → Call
  assign : (id assignee actor : String) → Option String → Call
  resolve discard : (id actor : String) → Option String → Call

unfoldable pub perform : Call → ℕ → Store → Store
perform (create task) now s = (create_queued task s).0
perform (start id) now s = (mark_running id now s).0
perform (beat id) now s = (heartbeat id now s).0
perform (succeed id) now s = (mark_succeeded id now s).0
perform (fail id e) now s = (mark_failed id e now s).0
perform (bury id e) now s = (move_to_dead_letter id e now s).0
perform (assign id a b n) now s = (assign_dead_letter id a b n now s).0
perform (resolve id a n) now s = (resolve_dead_letter id a n now s).0
perform (discard id a n) now s = (discard_dead_letter id a n now s).0

unfoldable pub perform_all : List (Call × ℕ) → Store → Store
perform_all [] s = s
perform_all ((c, now) ∷ cs) s = perform_all cs (perform c now s)

abbrev KeepsQueue : TaskRun → Option TaskRun → Type 0
KeepsQueue r none = Unit
KeepsQueue r (some old) = r.queue_name ≡ old.queue_name

RunIsThere-same :
    (d : DeadLetter) (r : TaskRun) (o : Option TaskRun)
    → KeepsQueue r o
    → RunIsThere d o
    → RunIsThere d (some r)
RunIsThere-same d r none q h = absurd h
RunIsThere-same d r (some old) q h = q ∙ h

RunIsThere-insert :
    (d : DeadLetter) (t id : String) (r : TaskRun) (runs : Dict TaskRun)
    → KeepsQueue r (lookup id runs)
    → RunIsThere d (lookup t runs)
    → RunIsThere d (lookup t (insert id r runs))
RunIsThere-insert d t id r runs q h = elim (Bool-cases (id == t)) [
  | inl same ↦
      rw (lookup-insert, same)
        (RunIsThere-same d r (lookup t runs)
          (subst (λ x. KeepsQueue r (lookup x runs)) ((eq_iff id t).0 same) q) h)
  | inr other ↦ rw (lookup-insert, other) h
]

LetterIsFiled-insert :
    (k id : String) (o : Option DeadLetter) (r : TaskRun) (runs : Dict TaskRun)
    → KeepsQueue r (lookup id runs)
    → LetterIsFiled k o runs
    → LetterIsFiled k o (insert id r runs)
LetterIsFiled-insert k id none r runs q h = tt
LetterIsFiled-insert k id (some d) r runs q h =
    (h.0, h.1, RunIsThere-insert d d.task_run_id id r runs q h.2)

RunIsFiled-insert :
    (k id : String) (r : TaskRun) (runs : Dict TaskRun)
    → r.id ≡ id
    → RunIsFiled k (lookup k runs)
    → RunIsFiled k (lookup k (insert id r runs))
RunIsFiled-insert k id r runs e h = elim (Bool-cases (id == k)) [
  | inl same ↦ rw (lookup-insert, same) (e ∙ (eq_iff id k).0 same)
  | inr other ↦ rw (lookup-insert, other) h
]

-- A write of a run that keeps its id and, where there was one, its queue.
insert_run-IsValid :
    (id : String) (r : TaskRun) (s : Store)
    → IsValid s
    → r.id ≡ id
    → KeepsQueue r (lookup id s.task_runs)
    → IsValid (record s { task_runs = insert id r s.task_runs })
insert_run-IsValid id r s v e q = record {
  runs = λ k. RunIsFiled-insert k id r s.task_runs e (v.runs k);
  letters = λ k. LetterIsFiled-insert k id (lookup k s.dead_letters) r s.task_runs q (v.letters k);
}

LetterIsFiled-write :
    (k id : String) (d : DeadLetter) (s : Store)
    → LetterIsFiled id (some d) s.task_runs
    → LetterIsFiled k (lookup k s.dead_letters) s.task_runs
    → LetterIsFiled k (lookup k (insert id d s.dead_letters)) s.task_runs
LetterIsFiled-write k id d s e h = elim (Bool-cases (id == k)) [
  | inl same ↦
      rw (lookup-insert, same)
        (subst (λ x. LetterIsFiled x (some d) s.task_runs) ((eq_iff id k).0 same) e)
  | inr other ↦ rw (lookup-insert, other) h
]

insert_letter-IsValid :
    (id : String) (d : DeadLetter) (s : Store)
    → IsValid s
    → LetterIsFiled id (some d) s.task_runs
    → IsValid (record s { dead_letters = insert id d s.dead_letters })
insert_letter-IsValid id d s v e = record {
  runs = v.runs;
  letters = λ k. LetterIsFiled-write k id d s e (v.letters k);
}

create-IsValid : (task : QueueTask) (s : Store) → IsValid s → IsValid (create_queued task s).0
unfolding create_queued
create-IsValid task s v = elim (Option-cases (lookup task.id s.task_runs)) [
  | inl free ↦ rw free (
      insert_run-IsValid task.id (fresh_run task) s v refl
        (subst (KeepsQueue (fresh_run task)) (sym free) tt))
  | inr (old, there) ↦ rw there v
]

-- A change of a run that keeps its id and its queue.
abbrev Preserves : (TaskRun → TaskRun) → Type 0
Preserves change = (r : TaskRun) → ((change r).id ≡ r.id) × ((change r).queue_name ≡ r.queue_name)

run_id :
    (id : String) (s : Store) (old : TaskRun)
    → IsValid s
    → lookup id s.task_runs ≡ some old
    → old.id ≡ id
run_id id s old v e = subst (RunIsFiled id) e (v.runs id)

patch-IsValid :
    (id : String) (change : TaskRun → TaskRun) (s : Store)
    → Preserves change
    → IsValid s
    → IsValid (patch id change s).0
unfolding patch
patch-IsValid id change s p v = elim (Option-cases (lookup id s.task_runs)) [
  | inl free ↦ rw free v
  | inr (old, there) ↦ rw there (
      insert_run-IsValid id (change old) s v ((p old).0 ∙ run_id id s old v there)
        (subst (KeepsQueue (change old)) (sym there) (p old).1))
]

buried :
    (id : String) (old : TaskRun) (e : Failure) (now : ℕ) (s : Store)
    → IsValid s
    → old.id ≡ id
    → KeepsQueue old (lookup id s.task_runs)
    → IsValid (
        put_letter (fresh_letter id (to_failed e now old) e now) (record s {
          task_runs =
              insert id
                (record (to_failed e now old) { status = dead_lettered })
                (insert id (to_failed e now old) s.task_runs);
        }))
buried id old e now s v same q =
    let once = insert_run-IsValid id (to_failed e now old) s v same q in
    let dead : TaskRun = record (to_failed e now old) { status = dead_lettered } in
    let twice =
      insert_run-IsValid id dead
        (record s { task_runs = insert id (to_failed e now old) s.task_runs }) once same
        (rw lookup-insert_self refl) in
    insert_letter-IsValid (letter_id id) (fresh_letter id (to_failed e now old) e now)
      (record s { task_runs = insert id dead (insert id (to_failed e now old) s.task_runs) }) twice
      (refl, refl, rw lookup-insert_self refl)

bury-IsValid :
    (id : String) (e : Failure) (now : ℕ) (s : Store)
    → IsValid s
    → IsValid (move_to_dead_letter id e now s).0
unfolding move_to_dead_letter mark_failed patch
bury-IsValid id e now s v = elim (Option-cases (lookup id s.task_runs)) [
  | inl free ↦ rw free v
  | inr (old, there) ↦
      rw there (
        buried id old e now s v (run_id id s old v there) (subst (KeepsQueue old) (sym there) refl))
]

-- The change keeps what a dead letter is filed by.
abbrev SameFile : DeadLetter → DeadLetter → Type 0
SameFile d c = (c.id ≡ d.id) × (c.task_run_id ≡ d.task_run_id) × (c.queue_name ≡ d.queue_name)

RunIsThere-SameFile :
    (d c : DeadLetter) (o : Option TaskRun)
    → c.queue_name ≡ d.queue_name
    → RunIsThere d o
    → RunIsThere c o
RunIsThere-SameFile d c none e h = absurd h
RunIsThere-SameFile d c (some r) e h = h ∙ sym e

handled :
    (id : String) (d c : DeadLetter) (s : Store)
    → SameFile d c
    → LetterIsFiled id (some d) s.task_runs
    → LetterIsFiled id (some c) s.task_runs
handled id d c s (e, t, q) (f, k, h) = (
  e ∙ f,
  k ∙ ap letter_id (sym t),
  rw t (RunIsThere-SameFile d c (lookup d.task_run_id s.task_runs) q h),
)

handle-IsValid :
    (id : String) (change : DeadLetter → DeadLetter) (s : Store)
    → ((d : DeadLetter) → SameFile d (change d))
    → IsValid s
    → IsValid (handle id change s).0
unfolding handle
handle-IsValid id change s p v = elim (Option-cases (lookup id s.dead_letters)) [
  | inl free ↦ rw free v
  | inr (old, there) ↦ elim (Bool-cases (is_finished old.status)) [
    | inl done ↦ rw (there, done) v
    | inr live ↦
        rw (there, live)
          (insert_letter-IsValid id (change old) s v (
            handled id old (change old) s (p old)
              (subst (λ o. LetterIsFiled id o s.task_runs) there (v.letters id))))
  ]
]

pub perform-IsValid : (c : Call) (now : ℕ) (s : Store) → IsValid s → IsValid (perform c now s)
unfolding perform mark_running heartbeat mark_succeeded mark_failed assign_dead_letter
    resolve_dead_letter discard_dead_letter
perform-IsValid (create task) now s v = create-IsValid task s v
perform-IsValid (start id) now s v = patch-IsValid id _ s (λ r. (refl, refl)) v
perform-IsValid (beat id) now s v = patch-IsValid id _ s (λ r. (refl, refl)) v
perform-IsValid (succeed id) now s v = patch-IsValid id _ s (λ r. (refl, refl)) v
perform-IsValid (fail id e) now s v = patch-IsValid id _ s (λ r. (refl, refl)) v
perform-IsValid (bury id e) now s v = bury-IsValid id e now s v
perform-IsValid (assign id a b n) now s v = handle-IsValid id _ s (λ d. (refl, refl, refl)) v
perform-IsValid (resolve id a n) now s v = handle-IsValid id _ s (λ d. (refl, refl, refl)) v
perform-IsValid (discard id a n) now s v = handle-IsValid id _ s (λ d. (refl, refl, refl)) v

-- Every operation of the store, in any order and at any times, keeps it well formed: each run stands
-- under its own id, and each dead letter stands under the id "dlq:" of a run of the same queue that
-- is still in the store.
pub perform_all-IsValid :
    (cs : List (Call × ℕ)) (s : Store) → IsValid s → IsValid (perform_all cs s)
unfolding perform_all
perform_all-IsValid [] s v = v
perform_all-IsValid ((c, now) ∷ cs) s v =
    perform_all-IsValid cs (perform c now s) (perform-IsValid c now s v)
