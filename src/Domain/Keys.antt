-- ===== src/Domain/Keys.antt =====
-- packages/domain/src/services.ts: `stableHash`, the idempotency keys and the draft hash. The
-- SHA-256 digest of node:crypto, in hexadecimal, is the parameter `sha256_hex`.
use Prim.Native.Char.{code}
use telegram_job_search_auto.Common.{
  ℕ, zero, suc, ◌+◌, ◌-◌, ◌*◌, String, ◌&&◌, Option, none, some, [], ◌∷◌, concat, leb,
  if◌then◌else◌,
}

-- `text.slice(0, n)`, of a text in the Basic Multilingual Plane.
abbrev pub prefix : ℕ → String → String
prefix zero s = ""
prefix (suc n) String.[] = ""
prefix (suc n) (String.◌∷◌ c s) = String.◌∷◌ c (prefix n s)

hex_digit : ℕ → Option ℕ
hex_digit c =
    if leb b'0' c && leb c b'9'
    then some (c - b'0')
    else if leb b'a' c && leb c b'f'
    then some (c - b'a' + 10)
    else if leb b'A' c && leb c b'F'
    then some (c - b'A' + 10)
    else none

-- `parseInt(text, 16)` of a text without sign, prefix or blanks: it stops at the first other
-- character, and `none` (NaN) means that there was no digit.
parse_hex_from : Option ℕ → String → Option ℕ
parse_hex_from acc String.[] = acc
parse_hex_from acc (String.◌∷◌ c s) = elim (hex_digit (code c)) [
  | none ↦ acc
  | some d ↦ parse_hex_from (elim acc [ none ↦ some d | some n ↦ some (n * 16 + d) ]) s
]

unfoldable pub parse_hex : String → Option ℕ
unfolding parse_hex_from hex_digit
parse_hex s = parse_hex_from none s

module _ (sha256_hex : String → String) where
  unfoldable pub stable_hash : String → String
  stable_hash value = prefix 24 (sha256_hex value)

unfoldable pub make_application_idempotency_key : String → String → String → String
make_application_idempotency_key user_id provider external_job_id =
    concat ("apply:" ∷ user_id ∷ ":" ∷ provider ∷ ":" ∷ external_job_id ∷ [])

unfoldable pub make_application_draft_variant_key :
    String → String → String → String → String → String
make_application_draft_variant_key user_id provider external_job_id resume_id profile_id = concat (
    "draft:" ∷ user_id ∷ ":" ∷ provider ∷ ":" ∷ external_job_id ∷ ":" ∷ resume_id ∷ ":" ∷ profile_id
    ∷ [])

unfoldable pub make_reply_idempotency_key : String → String → String → String
make_reply_idempotency_key conversation_id inbound_message_id template_id =
    concat ("reply:" ∷ conversation_id ∷ ":" ∷ inbound_message_id ∷ ":" ∷ template_id ∷ [])

unfoldable pub make_interview_confirm_idempotency_key : String → String → String
make_interview_confirm_idempotency_key conversation_id slot_hash =
    concat ("interview_confirm:" ∷ conversation_id ∷ ":" ∷ slot_hash ∷ [])
