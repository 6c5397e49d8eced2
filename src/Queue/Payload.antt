-- ===== src/Queue/Payload.antt =====
-- packages/db/src/queue.ts: the queues' payload schemas and `sanitizeQueuePayload`. What zod makes of
-- a schema's shape is the parameter `shape_ok`; the refinement on top of it is the program's own.
pub mod Redaction
use Prim.Native.Char.{Char, code}
use Prim.Native.String
use telegram_job_search_auto.Common.{
  ℕ, zero, suc, String, Bool, true, false, not, ◌&&◌, ◌||◌, Option, none, some, List, [], ◌∷◌, any,
  if◌then◌else◌, leb, nat_eq, is_space, has_black, after_any_case, somewhere,
  text_includes_any_case, ◌==◌,
}
use telegram_job_search_auto.Domain.Json.{
  Json, null, bool, num, str, arr, obj, Items, nil, cons, Fields, end, field, get,
}
use telegram_job_search_auto.Queue.{
  QueueName, source_poll, telegram_channel_ingest, parsing, dedup, scoring, resume_selection,
  application_generation, auto_apply, inbox_sync, message_classification, reply_generation,
  reply_dispatch, interview_coordination, digest, canary, retry, dead_letter,
}

-- The `requiredAnyOf` of each queue's schema.
unfoldable pub required_any_of : QueueName → List String
required_any_of source_poll = "providerId" ∷ "searchProfileId" ∷ []
required_any_of telegram_channel_ingest = "channelId" ∷ []
required_any_of parsing = "rawJobId" ∷ []
required_any_of dedup = "jobId" ∷ []
required_any_of scoring = "jobId" ∷ []
required_any_of resume_selection = "jobId" ∷ "profileId" ∷ []
required_any_of application_generation = "jobId" ∷ "applicationId" ∷ []
required_any_of auto_apply = "applicationId" ∷ "jobId" ∷ []
required_any_of inbox_sync = "providerId" ∷ "accountId" ∷ []
required_any_of message_classification = "inboundMessageId" ∷ []
required_any_of reply_generation = "inboundMessageId" ∷ "conversationId" ∷ []
required_any_of reply_dispatch = "outboundMessageId" ∷ "conversationId" ∷ []
required_any_of interview_coordination = "conversationId" ∷ "inboundMessageId" ∷ []
required_any_of digest = "userId" ∷ []
required_any_of canary = "providerId" ∷ []
required_any_of retry = "taskRunId" ∷ "deadLetterId" ∷ []
required_any_of dead_letter = "taskRunId" ∷ []

-- `typeof value === "string" && value.trim().length > 0`
abbrev pub is_filled_text : Option Json → Bool
is_filled_text (some (str s)) = has_black s
is_filled_text _ = false

abbrev pub has_required_identifier : List String → Json → Bool
has_required_identifier keys (obj fs) = any (λ k. is_filled_text (get k fs)) keys
has_required_identifier keys _ = false

module _ (shape_ok : QueueName → Json → Bool) where
  -- `queuePayloadSchemas[queueName].parse(payload)` does not throw.
  unfoldable pub accepts : QueueName → Json → Bool
  unfolding required_any_of
  accepts q payload = shape_ok q payload && has_required_identifier (required_any_of q) payload

abbrev pub secret_words : List String
secret_words =
    "token" ∷ "secret" ∷ "password" ∷ "cookie" ∷ "credential" ∷ "authorization" ∷ "session" ∷ "auth"
    ∷ "idempotency" ∷ []

unfoldable pub is_secret_key : String → Bool
is_secret_key key = any (λ w. text_includes_any_case w key) secret_words

is_between : ℕ → ℕ → ℕ → Bool
is_between lo hi c = leb lo c && leb c hi

is_alphanumeric : ℕ → Bool
unfolding is_between
is_alphanumeric c = is_between b'a' b'z' c || is_between b'A' b'Z' c || is_between b'0' b'9' c

-- `[a-z0-9._~+/=-]`, either case.
is_bearer_char : ℕ → Bool
unfolding is_alphanumeric
is_bearer_char c =
    is_alphanumeric c || any (nat_eq c) (b'.' ∷ b'_' ∷ b'~' ∷ b'+' ∷ b'/' ∷ b'=' ∷ b'-' ∷ [])

-- `\s+[a-z0-9._~+/=-]+` matches here; the flag says that a blank has been read.
blanks_then_bearer : Bool → String → Bool
unfolding is_bearer_char
blanks_then_bearer seen String.[] = false
blanks_then_bearer seen (String.◌∷◌ c s) =
    if is_space (code c) then blanks_then_bearer true s else seen && is_bearer_char (code c)

-- `=([^&\s]+)` matches here.
is_assigned : String → Bool
is_assigned (String.◌∷◌ e (String.◌∷◌ c s)) =
    nat_eq (code e) b'=' && not (nat_eq (code c) b'&' || is_space (code c))
is_assigned _ = false

-- `[-_a-z0-9]{n}` matches here.
token_chars : ℕ → String → Bool
unfolding is_alphanumeric
token_chars zero s = true
token_chars (suc n) String.[] = false
token_chars (suc n) (String.◌∷◌ c s) =
    (is_alphanumeric (code c) || nat_eq (code c) b'-' || nat_eq (code c) b'_') && token_chars n s

-- What follows one of the words passes the test.
follows : List String → (String → Bool) → String → Bool
follows [] test s = false
follows (w ∷ ws) test s =
    (elim (after_any_case w s) [ none ↦ false | some rest ↦ test rest ]) || follows ws test s

unfoldable pub is_secret_text : String → Bool
unfolding follows blanks_then_bearer is_assigned token_chars
is_secret_text s =
    somewhere (follows ("bearer" ∷ []) (blanks_then_bearer false)) s
    || somewhere
        (follows
          ("api_key" ∷ "api-key" ∷ "apikey" ∷ "token" ∷ "secret" ∷ "password" ∷ "session" ∷ [])
          is_assigned)
        s
    || somewhere
        (follows ("sk" ∷ "ghp" ∷ "glpat" ∷ "xoxb" ∷ "xoxa" ∷ "xoxp" ∷ "xoxr" ∷ "xoxs" ∷ [])
          (token_chars 16))
        s

-- `containsSecretValue`
abbrev pub contains_secret_value : Json → Bool
contains_secret_value (str s) = is_secret_text s
contains_secret_value _ = false

-- `sanitizeQueuePayload`
unfoldable mutual
  pub sanitize : Json → Json
  sanitize null = null
  sanitize (bool b) = bool b
  sanitize (num n) = num n
  sanitize (str s) = str s
  sanitize (arr xs) = arr (sanitize_items xs)
  sanitize (obj fs) = obj (sanitize_fields fs)

  pub sanitize_items : Items → Items
  sanitize_items nil = nil
  sanitize_items (cons x xs) = cons (sanitize x) (sanitize_items xs)

  pub sanitize_fields : Fields → Fields
  sanitize_fields end = end
  sanitize_fields (field k v fs) =
      let kept = sanitize v in
      field k (if is_secret_key k || contains_secret_value v then str "[redacted]" else kept)
        (sanitize_fields fs)
