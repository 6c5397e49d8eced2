-- ===== src/Queue/Adapter/Keys.antt =====
-- The tasks of a queue have different idempotency keys.
use telegram_job_search_auto.Common.{
  ℕ, String, Bool, true, false, ◌≡◌, refl, subst, inl, inr, Option, none, some, List, [], ◌∷◌, ◌++◌,
  lookup, insert, lookup-insert, lookup-insert_self, keep, find, find-none, find_sound, All,
  or_else, eq_iff, arith, ◌==◌, Option-cases, Bool-cases, concat,
}
use telegram_job_search_auto.Domain.Json.{Json}
use telegram_job_search_auto.Queue.{QueueName, QueueTask, queue_text}
use telegram_job_search_auto.Queue.Payload.{accepts}
use telegram_job_search_auto.Queue.Adapter.{
  Adapter, tasks_of, has_key, fresh_task, append_task, enqueue, remove,
}

abbrev Lacks : String → List QueueTask → Type 0
Lacks key ts = All (λ t. has_key key t ≡ false) ts

abbrev pub AreDistinct : List QueueTask → Type 0
AreDistinct [] = Unit
AreDistinct (t ∷ ts) = All (λ u. has_key t.idempotency_key u ≡ false) ts × AreDistinct ts

-- The tasks of the queue with this name: keys of their own, and an id made of the name and the key.
abbrev pub IsQueue : String → List QueueTask → Type 0
IsQueue name ts =
    AreDistinct ts × All (λ (t : QueueTask). t.id ≡ concat (name ∷ ":" ∷ t.idempotency_key ∷ [])) ts

abbrev pub IsValid : Adapter → Type 0
IsValid a = (name : String) → IsQueue name (or_else (lookup name a.tasks) [])

pub data Call : Type 0 where
  enqueue_call : (q : QueueName) → (payload : Json) → (key dedup_key : String) → (now : ℕ) → Call
  remove_call : (task : QueueTask) → Call

All-snoc :
    (P : QueueTask → Type 0) (ts : List QueueTask) (t : QueueTask)
    → All P ts
    → P t
    → All P (ts ++ (t ∷ []))
All-snoc P [] t h p = (p, tt)
All-snoc P (u ∷ us) t h p = (h.0, All-snoc P us t h.1 p)

All-filtered :
    (P : QueueTask → Type 0) (p : QueueTask → Bool) (ts : List QueueTask)
    → All P ts
    → All P (keep p ts)
All-filtered P p [] h = tt
All-filtered P p (t ∷ ts) h = elim (Bool-cases (p t)) [
  | inl kept ↦ rw kept (h.0, All-filtered P p ts h.1)
  | inr dropped ↦ rw dropped (All-filtered P p ts h.1)
]

AreDistinct-snoc :
    (ts : List QueueTask) (t : QueueTask)
    → AreDistinct ts
    → Lacks t.idempotency_key ts
    → AreDistinct (ts ++ (t ∷ []))
AreDistinct-snoc [] t h l = (tt, tt)
AreDistinct-snoc (u ∷ us) t h l = (
  All-snoc _ us t h.0 (
      ground (
        arith,
        eq_iff u.idempotency_key t.idempotency_key,
        eq_iff t.idempotency_key u.idempotency_key,
      )),
  AreDistinct-snoc us t h.1 l.1,
)

AreDistinct-keep :
    (p : QueueTask → Bool) (ts : List QueueTask) → AreDistinct ts → AreDistinct (keep p ts)
AreDistinct-keep p [] h = tt
AreDistinct-keep p (t ∷ ts) h = elim (Bool-cases (p t)) [
  | inl kept ↦ rw kept (All-filtered _ p ts h.0, AreDistinct-keep p ts h.1)
  | inr dropped ↦ rw dropped (AreDistinct-keep p ts h.1)
]

-- A queue's list is replaced by another that is in order.
IsQueue-insert :
    (name other : String) (ts : List QueueTask) (a : Adapter)
    → IsValid a
    → IsQueue name ts
    → IsQueue other (or_else (lookup other (insert name ts a.tasks)) [])
IsQueue-insert name other ts a v h = elim (Bool-cases (name == other)) [
  | inl same ↦
      rw lookup-insert (rw same (subst (λ n. IsQueue n ts) (ground (arith, eq_iff name other)) h))
  | inr differ ↦ rw lookup-insert (rw differ (v other))
]

find-snoc :
    (key : String) (ts : List QueueTask) (t : QueueTask)
    → find (has_key key) ts ≡ none
    → t.idempotency_key ≡ key
    → find (has_key key) (ts ++ (t ∷ [])) ≡ some t
find-snoc key [] t absent e = ground (arith, eq_iff t.idempotency_key key)
find-snoc key (u ∷ us) t absent e = elim (Bool-cases (has_key key u)) [
  | inl same ↦ ground (arith)
  | inr differ ↦ rw differ (find-snoc key us t (ground (arith)) e)
]

abbrev after_call : Adapter → Option (Adapter × QueueTask) → Adapter
after_call a none = a
after_call a (some (b, _)) = b

module _ (shape_ok : QueueName → Json → Bool) where
  unfoldable pub perform : Adapter → Call → Adapter
  perform a (enqueue_call q payload key dedup_key now) =
      after_call a (enqueue shape_ok q payload key dedup_key now a)
  perform a (remove_call task) = (remove task a).0

  unfoldable pub perform_all : Adapter → List Call → Adapter
  unfolding perform
  perform_all a [] = a
  perform_all a (c ∷ cs) = perform_all (perform a c) cs

  enqueue-IsValid :
      (q : QueueName) (payload : Json) (key dedup_key : String) (now : ℕ) (a : Adapter)
      → IsValid a
      → IsValid (after_call a (enqueue shape_ok q payload key dedup_key now a))
  unfolding enqueue
  enqueue-IsValid q payload key dedup_key now a v = elim (Bool-cases (accepts shape_ok q payload)) [
    | inr refused ↦ rw refused v
    | inl taken ↦ rw taken (elim (Option-cases (find (has_key key) (tasks_of q a))) [
      | inr (t, there) ↦ rw there v
      | inl absent ↦ rw absent (λ other. IsQueue-insert (queue_text q) other _ a v (
        AreDistinct-snoc (tasks_of q a) _ (v (queue_text q)).0
            (find-none (has_key key) (tasks_of q a) absent),
        All-snoc _ (tasks_of q a) _ (v (queue_text q)).1 refl,
      ))
    ])
  ]

  remove-IsValid : (task : QueueTask) (a : Adapter) → IsValid a → IsValid (remove task a).0
  unfolding remove
  remove-IsValid task a v other =
      let name = queue_text task.queue_name in
      IsQueue-insert name other _ a v (
        AreDistinct-keep _ (tasks_of task.queue_name a) (v name).0,
        All-filtered _ _ (tasks_of task.queue_name a) (v name).1,
      )

  -- After any calls of `enqueue` and `remove` on an adapter in which, for every queue, the tasks
  -- have pairwise different idempotency keys and ids made of the queue's name and the key, that is
  -- still so.
  pub perform_all-IsQueue : (a : Adapter) (cs : List Call) → IsValid a → IsValid (perform_all a cs)
  unfolding perform_all perform
  perform_all-IsQueue a [] v = v
  perform_all-IsQueue a (enqueue_call q payload key dedup_key now ∷ cs) v =
      perform_all-IsQueue (perform a (enqueue_call q payload key dedup_key now)) cs
        (enqueue-IsValid q payload key dedup_key now a v)
  perform_all-IsQueue a (remove_call task ∷ cs) v =
      perform_all-IsQueue (perform a (remove_call task)) cs (remove-IsValid task a v)

  -- An accepted payload is enqueued with success. Enqueuing any accepted payload under the same key
  -- of the same queue again then returns the task of the first call, and changes nothing.
  pub enqueue-enqueue :
      (q : QueueName) (payload again : Json) (key dedup_key dedup_key' : String) (now now' : ℕ)
      (a : Adapter)
      → accepts shape_ok q payload ≡ true
      → accepts shape_ok q again ≡ true
      → (b : Adapter × QueueTask) × (enqueue shape_ok q payload key dedup_key now a ≡ some b)
        × (b.1.idempotency_key ≡ key)
        × (enqueue shape_ok q again key dedup_key' now' b.0 ≡ some b)
  unfolding enqueue
  enqueue-enqueue q payload again key dedup_key dedup_key' now now' a h h' =
      elim (Option-cases (find (has_key key) (tasks_of q a))) [
        | inr (t, there) ↦ (
          (a, t),
          rw (h, there) refl,
          ground
              (arith, find_sound (has_key key) (tasks_of q a) there, eq_iff t.idempotency_key key),
          rw (h', there) refl,
        )
        | inl absent ↦ (
          (
            append_task q (fresh_task q payload key dedup_key now) a,
            fresh_task q payload key dedup_key now,
          ),
          rw (h, absent) refl,
          refl,
          rw (h', lookup-insert_self)
              (rw
                (find-snoc key (tasks_of q a) (fresh_task q payload key dedup_key now) absent refl)
                refl),
        )
      ]
