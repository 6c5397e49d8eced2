-- ===== src/Domain/Text.antt =====
-- packages/domain/src/services.ts `normalizedText` and packages/db/src/rate-limits.ts
-- `normalizeLimitKey`. JavaScript's Unicode `toLowerCase` is the parameter `to_lower_case`; the
-- regular expressions are written out over the code points.
use Prim.Native.Char.{code}
use telegram_job_search_auto.Common.{
  ℕ, String, Bool, true, false, not, ◌&&◌, ◌||◌, Option, none, some, [], ◌∷◌, if◌then◌else◌, leb,
  nat_eq, or_else, any, is_space, after,
}

-- `[a-zа-яіїєґ0-9+#.\s-]` with the flags i and u, whose case folding adds a few characters.
is_kept : ℕ → Bool
unfolding is_space
is_kept c =
    (leb b'a' c && leb c b'z')
    || (leb b'A' c && leb c b'Z')
    || (leb b'0' c && leb c b'9')
    || (leb 0x410 c && leb c 0x44f)
    || (leb 0x1c80 c && leb c 0x1c86)
    || any (nat_eq c) (
        0x404 ∷ 0x406 ∷ 0x407 ∷ 0x454 ∷ 0x456 ∷ 0x457 ∷ 0x490 ∷ 0x491 ∷ 0x17f ∷ 0x212a ∷ b'+' ∷ b'#'
        ∷ b'.' ∷ b'-' ∷ [])
    || is_space c

begins_with_black : Option String → Bool
unfolding is_space
begins_with_black none = false
begins_with_black (some String.[]) = false
begins_with_black (some (String.◌∷◌ c s)) = not (is_space (code c))

-- `https?:\/\/\S+` matches here.
is_url_start : String → Bool
unfolding after begins_with_black
is_url_start s = begins_with_black (after "http://" s) || begins_with_black (after "https://" s)

-- `.replace(/https?:\/\/\S+/g, "")`; the flag says that a match is being skipped.
strip_urls : Bool → String → String
unfolding is_url_start is_space
strip_urls skipping String.[] = ""
strip_urls skipping (String.◌∷◌ c s) =
    let skipped = strip_urls true s in
    let kept = String.◌∷◌ c (strip_urls false s) in
    if skipping && not (is_space (code c))
    then skipped
    else if is_url_start (String.◌∷◌ c s)
    then skipped
    else kept

-- `.replace(/[^…]/giu, " ")`
blank_others : String → String
unfolding is_kept
blank_others String.[] = ""
blank_others (String.◌∷◌ c s) =
    let rest = blank_others s in if is_kept (code c) then String.◌∷◌ c rest else String.◌∷◌ " " rest

-- `.replace(/\s+/g, " ").trim()` in one pass: a blank is written before the next other character,
-- if one was written before it.
squeeze : Bool → Bool → String → String
unfolding is_space
squeeze started pending String.[] = ""
squeeze started pending (String.◌∷◌ c s) =
    let blank = squeeze started started s in
    let black = String.◌∷◌ c (squeeze true false s) in
    if is_space (code c) then blank else if pending then String.◌∷◌ " " black else black

module _ (to_lower_case : String → String) where
  -- `normalizedText`; a missing text counts as empty.
  unfoldable pub normalized_text : Option String → String
  unfolding strip_urls blank_others squeeze
  normalized_text value =
      squeeze false false (blank_others (strip_urls false (to_lower_case (or_else value ""))))

  -- `normalizeLimitKey`, which keeps web addresses.
  unfoldable pub normalize_limit_key : Option String → String
  unfolding blank_others squeeze
  normalize_limit_key value = squeeze false false (blank_others (to_lower_case (or_else value "")))
