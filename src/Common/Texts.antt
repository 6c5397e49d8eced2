-- ===== src/Common/Texts.antt =====
-- Searches in texts: `includes`, and what the regular expressions of the program need.
use Prim.Native.Char.{code}
use Prim.Native.String
use Prim.Native.String.{String}
use Prim.Native.Nat.{ℕ, ◌+◌}
use mathlib.Core.Path.{◌≡◌, refl}
use native.Mathlib.Omega.{arith}
use mathlib.Core.Bool.{Bool, true, false, ◌&&◌, ◌||◌, not}
use mathlib.Core.Option.{Option, none, some}
use mathlib.Core.List.{[], ◌∷◌}
use telegram_job_search_auto.Common.Tests.{leb, nat_eq, if◌then◌else◌}
use telegram_job_search_auto.Common.Lists.{any}

-- `\s`, which is also what `trim` removes.
unfoldable pub is_space : ℕ → Bool
is_space c =
    (leb 9 c && leb c 13)
    || (leb 0x2000 c && leb c 0x200a)
    || any (nat_eq c)
        (0x20 ∷ 0xa0 ∷ 0x1680 ∷ 0x2028 ∷ 0x2029 ∷ 0x202f ∷ 0x205f ∷ 0x3000 ∷ 0xfeff ∷ [])

-- `text.trim().length > 0`
unfoldable pub has_black : String → Bool
unfolding is_space
has_black String.[] = false
has_black (String.◌∷◌ c s) = not (is_space (code c)) || has_black s

-- The rest of a text behind a beginning, the characters compared by `same`.
unfoldable pub after_by : (ℕ → ℕ → Bool) → String → String → Option String
after_by same String.[] s = some s
after_by same (String.◌∷◌ p ps) String.[] = none
after_by same (String.◌∷◌ p ps) (String.◌∷◌ c s) =
    let rest = after_by same ps s in if same (code p) (code c) then rest else none

unfoldable pub after : String → String → Option String
unfolding after_by
after = after_by nat_eq

-- Equal but for the case of Latin letters, as under the flag i.
abbrev fold_case : ℕ → ℕ
fold_case c = if leb b'A' c && leb c b'Z' then c + 32 else c

unfoldable pub after_any_case : String → String → Option String
unfolding after_by
after_any_case = after_by (λ a b. nat_eq (fold_case a) (fold_case b))

-- Some position of the text passes the test on what follows.
unfoldable pub somewhere : (String → Bool) → String → Bool
somewhere test String.[] = test ""
somewhere test (String.◌∷◌ c s) = test (String.◌∷◌ c s) || somewhere test s

abbrev found : Option String → Bool
found none = false
found (some rest) = true

-- `text.includes(part)`
unfoldable pub text_includes : String → String → Bool
unfolding after somewhere
text_includes part text = somewhere (λ s. found (after part s)) text

-- `/part/i.test(text)` for a part without special characters.
unfoldable pub text_includes_any_case : String → String → Bool
unfolding after_any_case somewhere
text_includes_any_case part text = somewhere (λ s. found (after_any_case part s)) text

after-append : (p b : String) → after p (String.◌++◌ p b) ≡ some b
unfolding after after_by
after-append String.[] b = rw (String.append.nil b) refl
after-append (String.◌∷◌ c p) b = ground (arith, after-append p b, String.append.cons c p b)

somewhere-here : (test : String → Bool) (s : String) → test s ≡ true → somewhere test s ≡ true
unfolding somewhere
somewhere-here test String.[] h = h
somewhere-here test (String.◌∷◌ c s) h = ground (arith, h)

pub text_includes-here : (p b : String) → text_includes p (String.◌++◌ p b) ≡ true
unfolding text_includes
text_includes-here p b =
    somewhere-here (λ s. found (after p s)) (String.◌++◌ p b) (ground (arith, after-append p b))

pub text_includes-behind :
    (a p s : String) → text_includes p s ≡ true → text_includes p (String.◌++◌ a s) ≡ true
unfolding text_includes somewhere
text_includes-behind String.[] p s h = rw (String.append.nil s) h
text_includes-behind (String.◌∷◌ c a) p s h =
    rw (String.append.cons c a s) (ground (arith, text_includes-behind a p s h))

-- `text.length`, in UTF-16 code units.
unfoldable pub utf16_length : String → ℕ
utf16_length String.[] = 0
utf16_length (String.◌∷◌ c s) = (if leb 0x10000 (code c) then 2 else 1) + utf16_length s
