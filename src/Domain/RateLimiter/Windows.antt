-- ===== src/Domain/RateLimiter/Windows.antt =====
-- How many calls one window of a key admits.
use telegram_job_search_auto.Common.{
  ℕ, suc, ◌+◌, ◌-◌, ◌<◌, ◌≤◌, max, String, true, false, ◌&&◌, some, List, [], ◌∷◌, ◌≡◌, ◌≢◌, refl,
  ◌⊎◌, inl, inr, if◌then◌else◌, ltb, lookup, lookup-insert_self, lookup-insert_ne, eq_iff, arith,
  ◌==◌, All, Bool-cases,
}
use telegram_job_search_auto.Domain.RateLimiter.{Counter, Counters, LimitCall, check_limit, consume}

-- How many of the calls, made one after the other, are granted for this key.
unfoldable pub granted : String → List LimitCall → Counters → ℕ
unfolding consume
granted key [] counters = 0
granted key (c ∷ cs) counters =
    let (after, decision) = consume c counters in
    let rest = granted key cs after in if (c.key == key) && decision.allowed then suc rest else rest

-- A call for another key, or one for this key with this limit and before this time.
abbrev pub Falls : String → ℕ → ℕ → LimitCall → Type 0
Falls key limit reset_at c =
    (c.key ≢ key) ⊎ ((c.key ≡ key) × (c.limit ≡ limit) × (c.now < reset_at))

consume_other :
    (key : String) (c : LimitCall) (counters : Counters)
    → c.key ≢ key
    → lookup key (consume c counters).0 ≡ lookup key counters
unfolding consume
consume_other key c counters h = elim (Bool-cases (check_limit c counters).allowed) [
  | inl granted ↦ rw granted (lookup-insert_ne c.key key _ counters h)
  | inr refused ↦ rw refused refl
]

consume_running :
    (c : LimitCall) (counters : Counters) (held : Counter)
    → lookup c.key counters ≡ some held
    → c.now < held.reset_at
    → ((held.used < c.limit)
        × ((consume c counters).1.allowed ≡ true)
        × (lookup c.key (consume c counters).0
            ≡ some (record { used = held.used + 1; reset_at = held.reset_at })))
      ⊎ ((c.limit ≤ held.used)
          × ((consume c counters).1.allowed ≡ false)
          × (lookup c.key (consume c counters).0 ≡ some held))
unfolding consume check_limit
consume_running c counters held there early =
    let running : ltb c.now held.reset_at ≡ true = ground arith in
    rw (there, running)
      (elim (Bool-cases (ltb 0 (c.limit - held.used))) [
        | inl room ↦ rw room (inl (ground arith, ground arith, lookup-insert_self c.key _ counters))
        | inr full ↦ rw full (inr (ground arith, refl, there))
      ])

-- While a window runs, the calls for its key that are granted and those granted before are at most
-- the limit (or what had been granted before), whatever calls for other keys come between.
pub granted-bound :
    (key : String) (limit : ℕ) (held : Counter) (cs : List LimitCall) (counters : Counters)
    → lookup key counters ≡ some held
    → All (Falls key limit held.reset_at) cs
    → granted key cs counters + held.used ≤ max limit held.used
unfolding granted
granted-bound key limit held [] counters there falls = omega arith
granted-bound key limit held (c ∷ cs) counters there (inl other, falls) =
    let differ : (c.key == key) ≡ false = ground (arith, eq_iff c.key key) in
    rw differ
      (granted-bound key limit held cs (consume c counters).0 (rw consume_other there) falls)
granted-bound key limit held (c ∷ cs) counters there (inr (same, at_limit, early), falls) =
    let equal : (c.key == key) ≡ true = ground (arith, eq_iff c.key key) in
    elim (consume_running c counters held (rw same there) early) [
      | inl (room, allowed, now_there) ↦
          let later =
            granted-bound key limit (record { used = held.used + 1; reset_at = held.reset_at }) cs
              (consume c counters).0 (rw (← same) now_there) falls in
          rw (equal, allowed) (omega (arith, later, at_limit, room))
      | inr (full, refused, still_there) ↦
          let later =
            granted-bound key limit held cs (consume c counters).0 (rw (← same) still_there)
              falls in
          rw (equal, refused) later
    ]

-- Once a window has run out, a call is granted exactly when its limit is not 0, and it starts a
-- window of its own.
pub consume_restarts :
    (c : LimitCall) (counters : Counters) (held : Counter)
    → lookup c.key counters ≡ some held
    → held.reset_at ≤ c.now
    → ((consume c counters).1.allowed ≡ ltb 0 c.limit)
      × ((consume c counters).1.reset_at ≡ c.now + c.window_ms)
      × ((check_limit c counters).remaining ≡ c.limit)
unfolding consume check_limit
consume_restarts c counters held there late =
    let over : ltb c.now held.reset_at ≡ false = ground arith in
    rw (there, over)
      (elim (Bool-cases (ltb 0 c.limit)) [ inl room ↦ ground arith | inr none_left ↦ ground arith ])
