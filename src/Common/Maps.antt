-- ===== src/Common/Maps.antt =====
-- A JavaScript `Map<string, V>` (and a plain object read as a record) as an association list in
-- insertion order: a write to a key that is there keeps its place.
use Prim.Native.Nat.{ℕ, ◌+◌, ◌≤◌}
use Prim.Native.String.{String}
use mathlib.Core.Path.{◌≡◌, refl}
use mathlib.Core.Logic.{◌≢◌, inl, inr}
use mathlib.Core.Bool.{Bool, true}
use mathlib.Core.Option.{Option, none, some}
use mathlib.Core.List.{List, [], ◌∷◌}
use native.Mathlib.Omega.{arith}
use text.Mathlib.Text.{◌==◌}
use text.Mathlib.TextEquality.{eq_iff}
use telegram_job_search_auto.Common.Tests.{if◌then◌else◌, Bool-cases}
use telegram_job_search_auto.Common.Lists.{All, keep, length, find}

abbrev pub Dict {ℓ} : Type ℓ → Type ℓ
Dict V = List (String × V)

module _ {ℓ} {V : Type ℓ} where
  -- `map.get(key)`
  unfoldable pub lookup : String → Dict V → Option V
  lookup key [] = none
  lookup key ((name, held) ∷ rest) = if name == key then some held else lookup key rest

  -- `map.set(key, held)`
  unfoldable pub insert : String → V → Dict V → Dict V
  insert key new [] = (key, new) ∷ []
  insert key new ((name, held) ∷ rest) =
      if name == key then (key, new) ∷ rest else (name, held) ∷ insert key new rest

  abbrev pub values : Dict V → List V
  values [] = []
  values ((k, v) ∷ m) = v ∷ values m

  pub lookup-insert :
      (written asked : String) (new : V) (d : Dict V)
      → lookup asked (insert written new d)
        ≡ (if written == asked then some new else lookup asked d)
  unfolding lookup insert
  lookup-insert written asked new [] = refl
  lookup-insert written asked new ((name, held) ∷ rest) = ground (
    arith,
    eq_iff written asked,
    eq_iff name written,
    eq_iff name asked,
    lookup-insert written asked new rest,
  )

  pub lookup-insert_self : (k : String) (v : V) (m : Dict V) → lookup k (insert k v m) ≡ some v
  lookup-insert_self k v m = ground (arith, lookup-insert k k v m, eq_iff k k)

  pub lookup-insert_ne :
      (k j : String) (v : V) (m : Dict V) → k ≢ j → lookup j (insert k v m) ≡ lookup j m
  lookup-insert_ne k j v m h = ground (arith, lookup-insert k j v m, eq_iff k j)

module _ {ℓ κ} {V : Type ℓ} where
  -- What holds of every value and of the one that is written holds of every value afterwards.
  pub All-values-insert :
      (P : V → Type κ) (k : String) (v : V) (m : Dict V)
      → All P (values m)
      → P v
      → All P (values (insert k v m))
  unfolding insert
  All-values-insert P k v [] h p = (p, tt)
  All-values-insert P k v ((j, w) ∷ m) h p = ground (arith, All-values-insert P k v m h.1 p)

  pub All-values-lookup :
      (P : V → Type κ) (k : String) (m : Dict V) {v : V}
      → All P (values m)
      → lookup k m ≡ some v
      → P v
  unfolding lookup
  All-values-lookup P k [] h e = cc
  All-values-lookup P k ((j, w) ∷ m) {v} h e = ground (arith, All-values-lookup P k m {v = v} h.1)

module _ {ℓ} {V : Type ℓ} where
  -- How many values pass the test.
  abbrev pub count : (V → Bool) → Dict V → ℕ
  count test m = length (keep test (values m))

  pub count-insert-le :
      (test : V → Bool) (key : String) (new : V) (m : Dict V)
      → count test (insert key new m) ≤ count test m + (if test new then 1 else 0)
  unfolding insert
  count-insert-le test key new [] = ground arith
  count-insert-le test key new ((name, held) ∷ m) = elim (Bool-cases (name == key)) [
    | inl same ↦ rw same (ground arith)
    | inr differ ↦ rw differ (ground (arith, count-insert-le test key new m))
  ]

  pub count-none : (test : V → Bool) (m : Dict V) → find test (values m) ≡ none → count test m ≡ 0
  count-none test [] e = refl
  count-none test ((name, held) ∷ m) e = ground (arith, count-none test m)

  -- A value that does not pass, or takes the place of one that does, adds none.
  pub count-change-le :
      (test : V → Bool) (key : String) {held new : V} (m : Dict V)
      → lookup key m ≡ some held
      → (test new ≡ true → test held ≡ true)
      → count test (insert key new m) ≤ count test m
  unfolding insert lookup
  count-change-le test key {held} {new} [] there h = cc
  count-change-le test key {held} {new} ((name, first) ∷ m) there h =
      elim (Bool-cases (name == key)) [
        | inl same ↦
            let here : first ≡ held = ground (arith, rw same at there) in
            rw (same, here) (ground (arith, h))
        | inr differ ↦ rw differ (
            ground
              (arith, count-change-le test key {held = held} {new = new} m (rw differ at there) h))
      ]

  -- The first value that passes, where none did before the write of one that does.
  pub find-insert :
      (test : V → Bool) (key : String) (new : V) (m : Dict V)
      → find test (values m) ≡ none
      → test new ≡ true
      → find test (values (insert key new m)) ≡ some new
  unfolding insert
  find-insert test key new [] e h = rw h refl
  find-insert test key new ((name, held) ∷ m) e h = elim (Bool-cases (name == key)) [
    | inl same ↦ rw (same, h) refl
    | inr differ ↦ rw differ (ground (arith, find-insert test key new m))
  ]

  -- One that passes stays the only one, where it is written because there was none.
  pub count-first-le :
      (test : V → Bool) (key : String) (new : V) (m : Dict V)
      → count test m ≤ 1
      → (test new ≡ true → find test (values m) ≡ none)
      → count test (insert key new m) ≤ 1
  count-first-le test key new m single absent =
      let grown = count-insert-le test key new m in
      elim (Bool-cases (test new)) [
        | inl passes ↦
            let gone = count-none test m (absent passes) in
            omega (arith, rw (passes, gone) at grown)
        | inr fails ↦ omega (arith, single, rw fails at grown)
      ]
