-- ===== src/Queue/Idempotency/Exclusion.antt =====
-- A key is held by one acquisition at a time.
use telegram_job_search_auto.Common.{
  ℕ, String, Bool, true, false, not, ◌≡◌, ◌≢◌, refl, ap, lookup-insert_self, ◌⊎◌, inl, inr, Option,
  none, some, List, [], ◌∷◌, lookup, lookup-insert, eq_iff, arith, is_some, Option-cases,
  Bool-cases, All,
}
use telegram_job_search_auto.Queue.Idempotency.{
  Records, IdempotencyRecord, IdempotencyStatus, acquire, transition, commit, fail, release,
  is_released,
}

-- The calls of the service; one that throws leaves the map as it was.
pub data Call : Type 0 where
  acquire_call : (key entity_type entity_id : String) → Call
  commit_call release_call : (key : String) → Call
  fail_call : (key message : String) → Call

abbrev pub settle : Records → Option (Records × IdempotencyRecord) → Records
settle r none = r
settle r (some (s, _)) = s

unfoldable pub perform : Records → Call → ℕ → Records
perform r (acquire_call k t e) now = (acquire r k t e now).0
perform r (commit_call k) now = settle r (commit r k now)
perform r (release_call k) now = settle r (release r k now)
perform r (fail_call k m) now = settle r (fail r k m now)

unfoldable pub perform_all : Records → List (Call × ℕ) → Records
perform_all r [] = r
perform_all r ((c, now) ∷ cs) = perform_all (perform r c now) cs

-- The key has a record that is not released.
abbrev pub holds? : Option IdempotencyRecord → Bool
holds? none = false
holds? (some r) = not (is_released r.status)

abbrev pub Holds : String → Records → Type 0
Holds key r = holds? (lookup key r) ≡ true

abbrev pub Releases : String → Call → Type 0
Releases key (release_call k) = k ≡ key
Releases key _ = ⊥

abbrev pub Keeps : String → Call × ℕ → Type 0
Keeps key c = ¬ Releases key c.0

Holds-transition :
    (key k : String) (r : Records) (s : IdempotencyStatus) (m : Option String) (now : ℕ)
    → Holds key r
    → (is_released s ≡ false) ⊎ (k ≢ key)
    → Holds key (settle r (transition r k s m now))
unfolding transition
Holds-transition key k r s m now h d = elim (Option-cases (lookup k r)) [
  | inl none_there ↦ rw none_there h
  | inr (old, there) ↦ rw there (rw lookup-insert (ground (arith, eq_iff k key)))
]

Holds-acquire :
    (key k t e : String) (r : Records) (now : ℕ) → Holds key r → Holds key (acquire r k t e now).0
unfolding acquire
Holds-acquire key k t e r now h = elim (Option-cases (lookup k r)) [
  | inl none_there ↦ rw none_there (rw lookup-insert (ground (arith, eq_iff k key)))
  | inr (old, there) ↦ elim (Bool-cases (is_released old.status)) [
    | inl free ↦ rw (there, free) (rw lookup-insert (ground (arith, eq_iff k key)))
    | inr held ↦ rw (there, held) h
  ]
]

Holds-perform :
    (key : String) (r : Records) (c : Call) (now : ℕ)
    → Holds key r
    → ¬ Releases key c
    → Holds key (perform r c now)
unfolding perform
Holds-perform key r (acquire_call k t e) now h q = Holds-acquire key k t e r now h
Holds-perform key r (commit_call k) now h q = Holds-transition key k r _ _ now h (inl refl)
Holds-perform key r (release_call k) now h q = Holds-transition key k r _ _ now h (inr q)
Holds-perform key r (fail_call k m) now h q = Holds-transition key k r _ _ now h (inl refl)

pub Holds-perform_all :
    (key : String) (r : Records) (cs : List (Call × ℕ))
    → Holds key r
    → All (Keeps key) cs
    → Holds key (perform_all r cs)
unfolding perform_all
Holds-perform_all key r [] h q = h
Holds-perform_all key r ((c, now) ∷ cs) h q =
    Holds-perform_all key (perform r c now) cs (Holds-perform key r c now h q.0) q.1

acquire_taken :
    (key t e : String) (r : Records) (now : ℕ)
    → Holds key r
    → ((acquire r key t e now).1.acquired ≡ false) × ((acquire r key t e now).0 ≡ r)
unfolding acquire
acquire_taken key t e r now h = elim (Option-cases (lookup key r)) [
  | inl none_there ↦ cc (ap holds? none_there)
  | inr (old, there) ↦ ground (arith, ap holds? there)
]

acquire-Holds :
    (key t e : String) (r : Records) (now : ℕ)
    → (acquire r key t e now).1.acquired ≡ true
    → Holds key (acquire r key t e now).0
unfolding acquire
acquire-Holds key t e r now h = elim (Option-cases (lookup key r)) [
  | inl none_there ↦ rw none_there (rw lookup-insert_self refl)
  | inr (old, there) ↦ elim (Bool-cases (is_released old.status)) [
    | inl free ↦ rw (there, free) (rw lookup-insert_self refl)
    | inr held ↦ cc
  ]
]

-- After a successful acquisition of a key, and any calls for any keys of which none releases this
-- key, another acquisition of it is refused and changes no record.
pub acquire-acquire :
    (key t e t' e' : String) (r : Records) (now now' : ℕ) (cs : List (Call × ℕ))
    → (acquire r key t e now).1.acquired ≡ true
    → All (Keeps key) cs
    → let later = perform_all (acquire r key t e now).0 cs in
      ((acquire later key t' e' now').1.acquired ≡ false)
      × ((acquire later key t' e' now').0 ≡ later)
acquire-acquire key t e t' e' r now now' cs h q =
    acquire_taken key t' e' _ now' (Holds-perform_all key _ cs (acquire-Holds key t e r now h) q)

-- A released key can be acquired again, and one that was never acquired can neither be committed
-- nor failed nor released.
pub release-acquire :
    (key t e : String) (r : Records) (now now' : ℕ)
    → (is_some (release r key now) ≡ is_some (lookup key r))
      × (is_some (commit r key now) ≡ is_some (lookup key r))
      × (is_some (fail r key t now) ≡ is_some (lookup key r))
      × ((acquire (settle r (release r key now)) key t e now').1.acquired ≡ true)
unfolding acquire transition
release-acquire key t e r now now' = elim (Option-cases (lookup key r)) [
  | inl none_there ↦ rw (none_there, none_there) (refl, refl, refl, refl)
  | inr (old, there) ↦ rw there (refl, refl, refl, rw lookup-insert_self refl)
]
