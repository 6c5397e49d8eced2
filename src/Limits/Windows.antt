-- ===== src/Limits/Windows.antt =====
-- One window: how many timestamps count, when the check passes, and when it opens again.
use telegram_job_search_auto.Common.{
  ℕ, suc, ◌+◌, ◌-◌, ◌≤◌, ◌<◌, String, true, ◌≡◌, refl, ap, subst, ◌↔◌, ◌⊎◌, inl, none, some, List,
  [], ◌∷◌, length, first?, arith, All,
}
use native.Mathlib.Nat.{le_refl}
use telegram_job_search_auto.Domain.Submit.{Timestamp}
use telegram_job_search_auto.Limits.{in_window, insert_sorted, sort, build_window_check}

length-insert_sorted : (x : ℕ) (xs : List ℕ) → length (insert_sorted x xs) ≡ suc (length xs)
unfolding insert_sorted
length-insert_sorted x [] = refl
length-insert_sorted x (y ∷ ys) = ground (arith, length-insert_sorted x ys)

pub length-sort : (xs : List ℕ) → length (sort xs) ≡ length xs
unfolding sort
length-sort [] = refl
length-sort (x ∷ xs) = omega (arith, length-insert_sorted x (sort xs), length-sort xs)

-- How many of the timestamps lie in the window.
abbrev pub count_in_window : ℕ → ℕ → List Timestamp → ℕ
count_in_window window_ms now ts = length (in_window window_ms now ts)

-- A window check passes exactly when fewer timestamps than the limit lie in the window; it reports
-- their number and what is left, and a reason exactly when it fails.
pub build_window_check-counts :
    (name key : String) (limit : ℕ) (ts : List Timestamp) (window_ms now : ℕ)
    → let c = build_window_check name key limit ts window_ms now in
      let used = count_in_window window_ms now ts in
      ((c.allowed ≡ true) ↔ (used < limit))
      × (c.used ≡ used)
      × (c.remaining ≡ limit - used)
      × ((c.reason ≡ none) ↔ (c.allowed ≡ true))
unfolding build_window_check
build_window_check-counts name key limit ts window_ms now =
    ground (arith, length-sort (in_window window_ms now ts))

-- The head of a sorted list is the least element.
abbrev IsLeast : ℕ → List ℕ → Type 0
IsLeast x xs = All (λ y. x ≤ y) xs

insert_sorted-IsLeast :
    (m x : ℕ) (xs : List ℕ) → m ≤ x → IsLeast m xs → IsLeast m (insert_sorted x xs)
unfolding insert_sorted
insert_sorted-IsLeast m x [] h k = (h, tt)
insert_sorted-IsLeast m x (y ∷ ys) h k = ground (arith, insert_sorted-IsLeast m x ys h k.1)

abbrev IsSorted : List ℕ → Type 0
IsSorted [] = Unit
IsSorted (x ∷ xs) = IsLeast x xs × IsSorted xs

IsLeast-trans : (m x : ℕ) (xs : List ℕ) → m ≤ x → IsLeast x xs → IsLeast m xs
IsLeast-trans m x [] h k = tt
IsLeast-trans m x (y ∷ ys) h k = ground (arith, IsLeast-trans m x ys h k.1)

insert_sorted-IsSorted : (x : ℕ) (xs : List ℕ) → IsSorted xs → IsSorted (insert_sorted x xs)
unfolding insert_sorted
insert_sorted-IsSorted x [] h = (tt, tt)
insert_sorted-IsSorted x (y ∷ ys) h =
    ground
      (arith, insert_sorted-IsSorted x ys h.1, insert_sorted-IsLeast y x ys, IsLeast-trans x y ys)

pub sort-IsSorted : (xs : List ℕ) → IsSorted (sort xs)
unfolding sort
sort-IsSorted [] = tt
sort-IsSorted (x ∷ xs) = insert_sorted-IsSorted x (sort xs) (sort-IsSorted xs)

abbrev Occurs : ℕ → List ℕ → Type 0
Occurs t [] = ⊥
Occurs t (x ∷ xs) = (x ≡ t) ⊎ Occurs t xs

Occurs-insert_sorted :
    (t x : ℕ) (xs : List ℕ) → Occurs t (insert_sorted x xs) → (x ≡ t) ⊎ Occurs t xs
unfolding insert_sorted
Occurs-insert_sorted t x [] h = ground arith
Occurs-insert_sorted t x (y ∷ ys) h = ground (arith, Occurs-insert_sorted t x ys)

insert_sorted-Occurs :
    (t x : ℕ) (xs : List ℕ) → (x ≡ t) ⊎ Occurs t xs → Occurs t (insert_sorted x xs)
unfolding insert_sorted
insert_sorted-Occurs t x [] h = ground arith
insert_sorted-Occurs t x (y ∷ ys) h = ground (arith, insert_sorted-Occurs t x ys)

Occurs-sort : (t : ℕ) (xs : List ℕ) → Occurs t (sort xs) → Occurs t xs
unfolding sort
Occurs-sort t [] h = h
Occurs-sort t (x ∷ xs) h = ground (arith, Occurs-insert_sorted t x (sort xs), Occurs-sort t xs)

IsLeast-insert_sorted :
    (m x : ℕ) (xs : List ℕ) → IsLeast m (insert_sorted x xs) → (m ≤ x) × IsLeast m xs
unfolding insert_sorted
IsLeast-insert_sorted m x [] h = ground arith
IsLeast-insert_sorted m x (y ∷ ys) h = ground (arith, IsLeast-insert_sorted m x ys)

IsLeast-sort : (m : ℕ) (xs : List ℕ) → IsLeast m (sort xs) → IsLeast m xs
unfolding sort
IsLeast-sort m [] h = tt
IsLeast-sort m (x ∷ xs) h =
    let both = IsLeast-insert_sorted m x (sort xs) h in (both.0, IsLeast-sort m xs both.1)

-- Later, no more timestamps lie in the window than before.
count_mono :
    (w now later : ℕ) (ts : List Timestamp)
    → now ≤ later
    → count_in_window w later ts ≤ count_in_window w now ts
unfolding in_window
count_mono w now later [] h = omega arith
count_mono w now later (none ∷ ts) h = count_mono w now later ts h
count_mono w now later (some t ∷ ts) h = ground (arith, count_mono w now later ts h)

-- Once the window of one of them has passed, fewer.
count-drops :
    (w now later t : ℕ) (ts : List Timestamp)
    → now ≤ later
    → Occurs t (in_window w now ts)
    → t + w ≤ later
    → count_in_window w later ts < count_in_window w now ts
unfolding in_window
count-drops w now later t [] h o k = absurd o
count-drops w now later t (none ∷ ts) h o k = count-drops w now later t ts h o k
count-drops w now later t (some u ∷ ts) h o k =
    ground (arith, count-drops w now later t ts h, count_mono w now later ts h)

-- As long as no window of theirs has passed, as many.
count-keeps :
    (w now later m : ℕ) (ts : List Timestamp)
    → now ≤ later
    → IsLeast m (in_window w now ts)
    → later < m + w
    → count_in_window w later ts ≡ count_in_window w now ts
unfolding in_window
count-keeps w now later m [] h o k = refl
count-keeps w now later m (none ∷ ts) h o k = count-keeps w now later m ts h o k
count-keeps w now later m (some u ∷ ts) h o k = ground (arith, count-keeps w now later m ts h)

-- Every timestamp that counts lies behind the cutoff.
in_window-bound : (w now t : ℕ) (ts : List Timestamp) → Occurs t (in_window w now ts) → now < t + w
unfolding in_window
in_window-bound w now t [] o = absurd o
in_window-bound w now t (none ∷ ts) o = in_window-bound w now t ts o
in_window-bound w now t (some u ∷ ts) o = ground (arith, in_window-bound w now t ts)

-- The oldest timestamp that counts, when there is one.
oldest :
    (w now : ℕ) (ts : List Timestamp)
    → 0 < count_in_window w now ts
    → (t : ℕ) × (first? (sort (in_window w now ts)) ≡ some t)
      × Occurs t (in_window w now ts)
      × IsLeast t (in_window w now ts)
oldest w now ts h = go (sort (in_window w now ts)) refl
  where
    go :
        (l : List ℕ)
        → sort (in_window w now ts) ≡ l
        → (t : ℕ) × (first? (sort (in_window w now ts)) ≡ some t)
          × Occurs t (in_window w now ts)
          × IsLeast t (in_window w now ts)
    go [] e = absurd (omega (arith, length-sort (in_window w now ts), ap length e))
    go (t ∷ l) e = (
      t,
      rw e refl,
      Occurs-sort t (in_window w now ts) (rw e (inl refl)),
      IsLeast-sort t (in_window w now ts)
          (rw e (le_refl t, (subst IsSorted e (sort-IsSorted (in_window w now ts))).0)),
    )

-- Where some timestamp counts, the check's reset time lies ahead, exactly as many timestamps count
-- until then, and fewer do from then on (the clock being at least one window after the epoch).
pub build_window_check-reset :
    (name key : String) (limit : ℕ) (ts : List Timestamp) (window_ms now later : ℕ)
    → window_ms ≤ now
    → now ≤ later
    → 0 < (build_window_check name key limit ts window_ms now).used
    → let c = build_window_check name key limit ts window_ms now in
      (now < c.reset_at)
      × ((later < c.reset_at)
          ↔ ((build_window_check name key limit ts window_ms later).used ≡ c.used))
      × ((c.reset_at ≤ later)
          ↔ ((build_window_check name key limit ts window_ms later).used < c.used))
unfolding build_window_check
build_window_check-reset name key limit ts w now later a b h =
    let (t, first, occurs, least) =
      oldest w now ts (omega (arith, length-sort (in_window w now ts))) in
    let bound = in_window-bound w now t ts occurs in
    rw first (
      ground (
        arith,
        length-sort (in_window w now ts),
        length-sort (in_window w later ts),
        count-drops w now later t ts b occurs,
        count-keeps w now later t ts b least,
      ))
