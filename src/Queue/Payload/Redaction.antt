-- ===== src/Queue/Payload/Redaction.antt =====
-- What `sanitizeQueuePayload` removes, and what it leaves.
use telegram_job_search_auto.Common.{
  String, false, ◌||◌, ◌≡◌, refl, ap, ◌⊎◌, inl, inr, if◌then◌else◌, Bool-cases, somewhere,
  after_any_case,
}
use telegram_job_search_auto.Domain.Json.{
  Json, null, bool, num, str, arr, obj, Items, nil, cons, Fields, end, field,
}
use telegram_job_search_auto.Queue.Payload.{
  is_secret_key, is_secret_text, contains_secret_value, sanitize, sanitize_items, sanitize_fields,
}

-- In every object, at every depth: a field with a secret name, and a field whose text looks like a
-- secret, hold the text "[redacted]".
mutual
  unfolding is_secret_text

  pub IsClean : Json → Type 0
  IsClean null = Unit
  IsClean (bool b) = Unit
  IsClean (num n) = Unit
  IsClean (str s) = Unit
  IsClean (arr xs) = AreClean xs
  IsClean (obj fs) = FieldsAreClean fs

  AreClean : Items → Type 0
  AreClean nil = Unit
  AreClean (cons x xs) = IsClean x × AreClean xs

  FieldsAreClean : Fields → Type 0
  FieldsAreClean end = Unit
  FieldsAreClean (field k v fs) =
      ((v ≡ str "[redacted]")
        ⊎ ((is_secret_key k ≡ false) × (contains_secret_value v ≡ false) × IsClean v))
      × FieldsAreClean fs

not_secret :
    (v : Json) → contains_secret_value v ≡ false → contains_secret_value (sanitize v) ≡ false
unfolding sanitize
not_secret null h = h
not_secret (bool b) h = h
not_secret (num n) h = h
not_secret (str s) h = h
not_secret (arr xs) h = h
not_secret (obj fs) h = h

-- `sanitize` on the value of a field, after what was in it has been cleaned.
IsClean-field :
    (k : String) (v : Json)
    → IsClean (sanitize v)
    → let w =
        (if is_secret_key k || contains_secret_value v then str "[redacted]" else sanitize v) in
      ((w ≡ str "[redacted]")
        ⊎ ((is_secret_key k ≡ false) × (contains_secret_value w ≡ false) × IsClean w))
IsClean-field k v h = elim (Bool-cases (is_secret_key k)) [
  | inl named ↦ rw named (inl refl)
  | inr plain ↦ elim (Bool-cases (contains_secret_value v)) [
    | inl text ↦ rw (plain, text) (inl refl)
    | inr safe ↦ rw (plain, safe) (inr (refl, not_secret v safe, h))
  ]
]

mutual
  unfolding IsClean sanitize

  pub clean : (v : Json) → IsClean (sanitize v)
  clean null = tt
  clean (bool b) = tt
  clean (num n) = tt
  clean (str s) = tt
  clean (arr xs) = clean_items xs
  clean (obj fs) = clean_fields fs

  clean_items : (xs : Items) → AreClean (sanitize_items xs)
  clean_items nil = tt
  clean_items (cons x xs) = (clean x, clean_items xs)

  clean_fields : (fs : Fields) → FieldsAreClean (sanitize_fields fs)
  clean_fields end = tt
  clean_fields (field k v fs) = (IsClean-field k v (clean v), clean_fields fs)

-- Whatever is in the payload, in the sanitized one every field of every object at every depth
-- either holds "[redacted]", or has a name without a secret word and a value that is not a text
-- that looks like a secret.
pub sanitize-IsClean : (v : Json) → IsClean (sanitize v)
sanitize-IsClean v = clean v

redacted_safe : contains_secret_value (str "[redacted]") ≡ false
unfolding is_secret_text somewhere after_any_case
redacted_safe = refl

-- The value that `sanitize` gives a field is given to it again by a second run.
stable_field :
    (k : String) (v : Json)
    → sanitize (sanitize v) ≡ sanitize v
    → let w =
        (if is_secret_key k || contains_secret_value v then str "[redacted]" else sanitize v) in
      (if is_secret_key k || contains_secret_value w then str "[redacted]" else sanitize w) ≡ w
unfolding sanitize
stable_field k v h = elim (Bool-cases (is_secret_key k)) [
  | inl named ↦ rw named refl
  | inr plain ↦ elim (Bool-cases (contains_secret_value v)) [
    | inl text ↦ rw (plain, text) (rw redacted_safe refl)
    | inr safe ↦ rw (plain, safe) (rw (not_secret v safe) h)
  ]
]

mutual
  unfolding sanitize

  stable : (v : Json) → sanitize (sanitize v) ≡ sanitize v
  stable null = refl
  stable (bool b) = refl
  stable (num n) = refl
  stable (str s) = refl
  stable (arr xs) = ap arr (stable_items xs)
  stable (obj fs) = ap obj (stable_fields fs)

  stable_items : (xs : Items) → sanitize_items (sanitize_items xs) ≡ sanitize_items xs
  stable_items nil = refl
  stable_items (cons x xs) = cc (stable x, stable_items xs)

  stable_fields : (fs : Fields) → sanitize_fields (sanitize_fields fs) ≡ sanitize_fields fs
  stable_fields end = refl
  stable_fields (field k v fs) = cc (stable_field k v (stable v), stable_fields fs)

-- A payload that is sanitized again stays as it is, and an array of one text, whatever the text is,
-- stays as it is at the first time.
pub sanitize-sanitize :
    (v : Json) (s : String)
    → (sanitize (sanitize v) ≡ sanitize v)
      × (sanitize (arr (cons (str s) nil)) ≡ arr (cons (str s) nil))
unfolding sanitize
sanitize-sanitize v s = (stable v, refl)
