-- ===== src/Common/Lists.antt =====
-- Lists measured by native numbers, with the searches of JavaScript arrays as Boolean functions.
use Prim.Native.Nat.{ℕ, zero, suc, ◌+◌, ◌≤◌}
use Prim.Native.String.{String}
use mathlib.Core.Path.{◌≡◌, refl, subst, ap, sym, ◌∙◌}
use mathlib.Core.Logic.{inl, inr}
use mathlib.Core.Bool.{Bool, true, false, ◌&&◌, ◌||◌}
use mathlib.Core.Option.{Option, none, some}
use mathlib.Core.List.{List, [], ◌∷◌, ◌++◌, Mem, mem-cons_self, mem-cons_of_mem, Memᴰ}
use native.Mathlib.Omega.{arith}
use text.Mathlib.Text.{◌==◌}
use telegram_job_search_auto.Common.Tests.{if◌then◌else◌, Bool-cases}

module _ {ℓ} {A : Type ℓ} where
  abbrev pub length : List A → ℕ
  length [] = 0
  length (x ∷ xs) = suc (length xs)

  abbrev pub is_empty : List A → Bool
  is_empty [] = true
  is_empty (x ∷ xs) = false

  -- `xs.every(p)`
  abbrev pub every : (A → Bool) → List A → Bool
  every p [] = true
  every p (x ∷ xs) = p x && every p xs

  -- `xs.some(p)`
  abbrev pub any : (A → Bool) → List A → Bool
  any p [] = false
  any p (x ∷ xs) = p x || any p xs

  -- `xs.find(p)`
  abbrev pub find : (A → Bool) → List A → Option A
  find p [] = none
  find p (x ∷ xs) = let rest = find p xs in if p x then some x else rest

  -- `xs.filter(p)`
  abbrev pub keep : (A → Bool) → List A → List A
  keep p [] = []
  keep p (x ∷ xs) = let rest = keep p xs in if p x then x ∷ rest else rest

  abbrev pub take : ℕ → List A → List A
  take zero xs = []
  take (suc n) [] = []
  take (suc n) (x ∷ xs) = x ∷ take n xs

  -- `xs[0]`
  abbrev pub first? : List A → Option A
  first? [] = none
  first? (x ∷ xs) = some x

  -- `xs.at(-1)`
  abbrev pub last? : List A → Option A
  last? [] = none
  last? (x ∷ []) = some x
  last? (x ∷ y ∷ ys) = last? (y ∷ ys)

module _ {ℓ κ} {A : Type ℓ} where
  abbrev pub All : (A → Type κ) → List A → Type κ
  All P [] = Unit
  All P (x ∷ xs) = P x × All P xs

  pub All-append : (P : A → Type κ) (xs ys : List A) → All P xs → All P ys → All P (xs ++ ys)
  All-append P [] ys hx hy = hy
  All-append P (x ∷ xs) ys hx hy = (hx.0, All-append P xs ys hx.1 hy)

module _ {ℓ} {A : Type ℓ} where
  pub length-append : (xs ys : List A) → length (xs ++ ys) ≡ length xs + length ys
  length-append [] ys = omega arith
  length-append (x ∷ xs) ys = omega (arith, length-append xs ys)

  pub length-keep-le : (p : A → Bool) (xs : List A) → length (keep p xs) ≤ length xs
  length-keep-le p [] = omega arith
  length-keep-le p (x ∷ xs) = ground (arith, length-keep-le p xs)

  some_same : (u t : A) → some u ≡ some t → u ≡ t
  some_same u t e = ground (arith)

  -- What `find` returns passes the test.
  pub find_sound : (p : A → Bool) (xs : List A) {a : A} → find p xs ≡ some a → p a ≡ true
  find_sound p [] e = cc
  find_sound p (x ∷ xs) {a} e = ground (arith, find_sound p xs {a = a})

  -- It is one of the list.
  pub find-Mem : (p : A → Bool) (xs : List A) {a : A} → find p xs ≡ some a → Mem a xs
  find-Mem p [] e = cc
  find-Mem p (x ∷ xs) {a} e = elim (Bool-cases (p x)) [
    | inl meets ↦ subst (λ y. Mem y (x ∷ xs)) (some_same x a (rw meets at e)) mem-cons_self
    | inr differs ↦ mem-cons_of_mem x (find-Mem p xs {a = a} (rw differs at e))
  ]

  pub any_sound :
      (p : A → Bool) (xs : List A) → any p xs ≡ true → (a : A) × Memᴰ a xs × (p a ≡ true)
  any_sound p [] h = ground arith
  any_sound p (x ∷ xs) h = elim (Bool-cases (p x)) [
    | inl meets ↦ (x, Memᴰ.head refl, meets)
    | inr differs ↦
        let (a, there, meets) = any_sound p xs (rw differs at h) in (a, Memᴰ.tail there, meets)
  ]

  pub any_complete : (p : A → Bool) (xs : List A) {a : A} → Memᴰ a xs → p a ≡ true → any p xs ≡ true
  any_complete p [] there h = elim there [ ]
  any_complete p (x ∷ xs) (Memᴰ.head e) h = rw (ap p (sym e) ∙ h) refl
  any_complete p (x ∷ xs) (Memᴰ.tail there) h = ground (arith, any_complete p xs there h)

  pub find-none : (p : A → Bool) (xs : List A) → find p xs ≡ none → All (λ x. p x ≡ false) xs
  find-none p [] e = tt
  find-none p (x ∷ xs) e = ground (arith, find-none p xs)

  pub every_iff_All : (p : A → Bool) (xs : List A) → every p xs ≡ true → All (λ x. p x ≡ true) xs
  every_iff_All p [] e = tt
  every_iff_All p (x ∷ xs) e = ground (arith, every_iff_All p xs)

  pub All-every : (p : A → Bool) (xs : List A) → All (λ x. p x ≡ true) xs → every p xs ≡ true
  All-every p [] h = refl
  All-every p (x ∷ xs) h = ground (arith, All-every p xs)

  pub keep-All : (p : A → Bool) (xs : List A) → All (λ x. p x ≡ true) (keep p xs)
  keep-All p [] = tt
  keep-All p (x ∷ xs) = ground (arith, keep-All p xs)

-- `xs.includes(s)` on texts.
abbrev pub includes : String → List String → Bool
includes s xs = any (λ x. x == s) xs
