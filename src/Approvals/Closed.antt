-- ===== src/Approvals/Closed.antt =====
-- What the steps of an approval request cannot do.
use telegram_job_search_auto.Common.{
  ℕ, ◌≤◌, String, Bool, true, false, not, ◌&&◌, ◌||◌, Option, some, List, ◌≡◌, ◌≢◌, refl, ◌⊎◌, inl,
  inr, subst, ◌∙◌, ap, lookup, find, find_sound, values, none, sym, eq_iff, Option-cases, truthy?,
  includes, arith,
}
use telegram_job_search_auto.Approvals.{
  ApprovalStatus, Draft, same_hash, repeats, create_request, pending, approved, ApprovalRequest,
  Database, Resolution, approve, reject, is_pending, is_approved, irreversible_approval_actions,
}
use telegram_job_search_auto.Approvals.Machine.{
  Step, decided, lapsed, Steps, start, next, Call, perform_all, perform_all-Follows,
}

abbrev is_open : ApprovalRequest → Bool
is_open r = is_pending r.status || is_approved r.status

-- An approved request for an irreversible action has a draft hash.
abbrev is_bound : ApprovalRequest → Bool
is_bound r =
    not (is_approved r.status && includes r.requested_action irreversible_approval_actions)
    || truthy? r.draft_hash

some_same : (u t : ApprovalRequest) → some u ≡ some t → u ≡ t
some_same u t e = ground (arith)

Resolution-cases : (x : Resolution) → (x ≡ approve) ⊎ (x ≡ reject)
Resolution-cases approve = inl refl
Resolution-cases reject = inr refl

same_hash_sound : (a b : Option String) → same_hash a b ≡ true → a ≡ b
same_hash_sound none none h = refl
same_hash_sound (some a) none h = ground arith
same_hash_sound none (some b) h = ground arith
same_hash_sound (some a) (some b) h = ap some (sym ((eq_iff b a).0 h))

is_pending_sound : (s : ApprovalStatus) → is_pending s ≡ true → s ≡ pending
is_pending_sound pending h = refl
is_pending_sound s h = ground arith

repeats-asks :
    (d : Draft) (r : ApprovalRequest)
    → repeats d r ≡ true
    → (r.status ≡ pending)
      × (r.draft_hash ≡ d.draft_hash)
      × (r.requested_action ≡ d.requested_action)
repeats-asks d r h = (
  is_pending_sound r.status (ground arith),
  same_hash_sound r.draft_hash d.draft_hash (ground arith),
  ground (arith, eq_iff r.requested_action d.requested_action),
)

module _ (uuid clock : ℕ → String) (iso : ℕ → String) (parse_time : String → Option ℕ) where
  Step-open : (r t : ApprovalRequest) → Step iso parse_time r t → is_open r ≡ true
  Step-open r _ (decided input now waiting early has matches) = rw waiting refl
  Step-open r _ (lapsed now h past) = h

  Steps-closed : (r t : ApprovalRequest) → is_open r ≡ false → Steps iso parse_time r t → t ≡ r
  Steps-closed r _ closed start = refl
  Steps-closed r t closed (next {s} steps step) =
      cc (ap is_open (Steps-closed r s closed steps), Step-open s t step)

  Step-bound :
      (r t : ApprovalRequest)
      → is_bound r ≡ true
      → Step iso parse_time r t
      → (is_bound t ≡ true)
        × (t.draft_hash ≡ r.draft_hash)
        × (t.requested_action ≡ r.requested_action)
  Step-bound r _ h (decided input now waiting early has matches) =
      elim (Resolution-cases input.resolution) [
        | inl yes_it_is ↦ rw yes_it_is (ground (arith, rw yes_it_is at has), refl, refl)
        | inr rejects ↦ rw rejects (refl, refl, refl)
      ]
  Step-bound r _ h (lapsed now h' past) = (refl, refl, refl)

  Steps-bound :
      (r t : ApprovalRequest)
      → is_bound r ≡ true
      → Steps iso parse_time r t
      → (is_bound t ≡ true)
        × (t.draft_hash ≡ r.draft_hash)
        × (t.requested_action ≡ r.requested_action)
  Steps-bound r _ h start = (h, refl, refl)
  Steps-bound r t h (next {s} steps step) =
      let (bound, hash, action) = Steps-bound r s h steps in
      let (bound', hash', action') = Step-bound s t bound step in
      (bound', hash' ∙ hash, action' ∙ action)

  -- A request that is rejected, expired or superseded stays as it is under any later calls of
  -- `create_request`, `resolve_request` and `expire_requests`, if `randomUUID` does not return its id
  -- again.
  pub closed_request-stays :
      (id : String) (r : ApprovalRequest) (cs : List Call) (db : Database)
      → ((n : ℕ) → db.drawn ≤ n → uuid n ≢ id)
      → lookup id db.approval_requests ≡ some r
      → is_pending r.status || is_approved r.status ≡ false
      → lookup id (perform_all uuid clock iso parse_time db cs).approval_requests ≡ some r
  closed_request-stays id r cs db new there closed =
      let (t, at_t, steps) = perform_all-Follows uuid clock iso parse_time id r cs db new there in
      cc (at_t, Steps-closed r t closed steps)

  -- When a request that was pending is found approved after any calls, its action and draft hash are
  -- those it had while it was pending; and either the action is reversible, or that hash is there and not
  -- empty. The id is not drawn again.
  approved_request-bound :
      (id : String) (r t : ApprovalRequest) (cs : List Call) (db : Database)
      → ((n : ℕ) → db.drawn ≤ n → uuid n ≢ id)
      → lookup id db.approval_requests ≡ some r
      → r.status ≡ pending
      → lookup id (perform_all uuid clock iso parse_time db cs).approval_requests ≡ some t
      → t.status ≡ approved
      → ((includes t.requested_action irreversible_approval_actions ≡ false)
          ⊎ (truthy? t.draft_hash ≡ true))
        × (t.draft_hash ≡ r.draft_hash)
        × (t.requested_action ≡ r.requested_action)
  approved_request-bound id r t cs db new there waiting later granted =
      let (u, at_u, steps) = perform_all-Follows uuid clock iso parse_time id r cs db new there in
      let (bound, hash, action) =
        Steps-bound r t (rw waiting refl)
          (subst (λ x. Steps iso parse_time r x) (some_same u t (cc (at_u, later))) steps) in
      (ground (arith, rw granted at bound), hash, action)

  -- `createApprovalRequest` returns a pending request for what it is given, be it new or not.
  create_request-asks :
      (d : Draft) (at : ℕ) (db : Database)
      → let r = (create_request uuid clock iso parse_time d at db).1 in
        (r.status ≡ pending)
        × (r.draft_hash ≡ d.draft_hash)
        × (r.requested_action ≡ d.requested_action)
  unfolding create_request
  create_request-asks d at db =
      elim (Option-cases (find (repeats d) (values db.approval_requests))) [
        | inl absent ↦ rw absent (refl, refl, refl)
        | inr (r, found) ↦
            rw found (repeats-asks d r (find_sound (repeats d) (values db.approval_requests) found))
      ]

  -- When the request that `create_request` has returned, and that is stored under its id, is found
  -- approved after any later calls, its action and draft hash are those that were asked for, and
  -- either that action is reversible, or the hash is there and not empty. Its id is not drawn again.
  pub create_request-bound :
      (d : Draft) (at : ℕ) (r t : ApprovalRequest) (cs : List Call) (db made : Database)
      → create_request uuid clock iso parse_time d at db ≡ (made, r)
      → ((n : ℕ) → made.drawn ≤ n → uuid n ≢ r.id)
      → lookup r.id made.approval_requests ≡ some r
      → lookup r.id (perform_all uuid clock iso parse_time made cs).approval_requests ≡ some t
      → t.status ≡ approved
      → ((includes d.requested_action irreversible_approval_actions ≡ false)
          ⊎ (truthy? d.draft_hash ≡ true))
        × (t.draft_hash ≡ d.draft_hash)
        × (t.requested_action ≡ d.requested_action)
  create_request-bound d at r t cs db made returned new there later granted =
      let same : (create_request uuid clock iso parse_time d at db).1 ≡ r =
        ap (λ x. x.1) returned in
      let (waits, hash, action) = create_request-asks d at db in
      let (bound, kept_hash, kept_action) =
        approved_request-bound r.id r t cs made new there
          (ap (λ (x : ApprovalRequest). x.status) (sym same) ∙ waits) later granted in
      let hash_of_d : t.draft_hash ≡ d.draft_hash =
        kept_hash ∙ (ap (λ (x : ApprovalRequest). x.draft_hash) (sym same) ∙ hash) in
      let action_of_d : t.requested_action ≡ d.requested_action =
        kept_action ∙ (ap (λ (x : ApprovalRequest). x.requested_action) (sym same) ∙ action) in
      (rw⁻¹ (hash_of_d, action_of_d) bound, hash_of_d, action_of_d)
