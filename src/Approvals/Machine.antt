-- ===== src/Approvals/Machine.antt =====
-- The life of an approval request, as steps.
use telegram_job_search_auto.Common.{
  ℕ, ◌≤◌, String, Bool, true, false, ◌&&◌, ◌||◌, Option, some, List, [], ◌∷◌, ◌≡◌, ◌≢◌, inl, inr,
  refl, sym, subst, Dict, lookup, insert, values, find, lookup-insert, lookup-insert_ne, eq_iff,
  arith, ◌==◌, Bool-cases, Option-cases,
}
use telegram_job_search_auto.Approvals.{
  ApprovalStatus, pending, approved, rejected, expired, superseded, ApprovalRequest, Database,
  Draft, ResolveInput, is_pending, is_approved, is_past, resolution_status, misses_hash,
  differs_hash, resolved_to, is_overdue, repeats, audit, create_request, resolve_request,
  expire_all, audit_expired, expire_requests,
}

-- One change of a request: a decision on a pending request that is not past its expiry, by a call
-- that gives the request's draft hash if there is one; or the expiry of a pending or approved one.
pub data Step (iso : ℕ → String) (parse_time : String → Option ℕ) (r : ApprovalRequest)
    : ApprovalRequest → Type 0 where
  decided :
      (input : ResolveInput) (now : ℕ)
      → r.status ≡ pending
      → is_past (parse_time r.expires_at) now ≡ false
      → misses_hash r input ≡ false
      → differs_hash r input ≡ false
      → Step iso parse_time r (resolved_to (resolution_status input.resolution) (iso now) r)
  lapsed :
      (now : ℕ)
      → is_pending r.status || is_approved r.status ≡ true
      → is_past (parse_time r.expires_at) now ≡ true
      → Step iso parse_time r (resolved_to expired (iso now) r)

pub data Steps (iso : ℕ → String) (parse_time : String → Option ℕ) (r : ApprovalRequest)
    : ApprovalRequest → Type 0 where
  start : Steps iso parse_time r r
  next :
      {s t : ApprovalRequest}
      → Steps iso parse_time r s
      → Step iso parse_time s t
      → Steps iso parse_time r t

pub data Call : Type 0 where
  create_call : Draft → ℕ → Call
  resolve_call : ResolveInput → ℕ → Call
  expire_call : ℕ → Call

module _ (uuid clock : ℕ → String) (iso : ℕ → String) (parse_time : String → Option ℕ) where
  -- The request under this id, and how it came from `r`.
  abbrev pub Follows : String → ApprovalRequest → Database → Type 0
  Follows id r db =
      (t : ApprovalRequest) × (lookup id db.approval_requests ≡ some t) × Steps iso parse_time r t

  unfoldable pub perform : Database → Call → Database
  perform db (create_call d now) = (create_request uuid clock iso parse_time d now db).0
  perform db (resolve_call input now) = (resolve_request uuid clock iso parse_time input now db).0
  perform db (expire_call now) = (expire_requests uuid clock iso parse_time now db).0

  unfoldable pub perform_all : Database → List Call → Database
  unfolding perform
  perform_all db [] = db
  perform_all db (c ∷ cs) = perform_all (perform db c) cs

  Follows-stay :
      (id : String) (r : ApprovalRequest) (db : Database)
      → lookup id db.approval_requests ≡ some r
      → Follows id r db
  Follows-stay id r db h = (r, h, start)

  Steps-same : (r s : ApprovalRequest) → s ≡ r → Steps iso parse_time r s
  Steps-same r s e = subst (λ x. Steps iso parse_time r x) (sym e) start

  -- The request `key` is written, as a step from what was there.
  lookup-Step :
      (id key : String) (r s t : ApprovalRequest) (db : Database)
      → lookup id db.approval_requests ≡ some r
      → lookup key db.approval_requests ≡ some s
      → Step iso parse_time s t
      → (u : ApprovalRequest) × (lookup id (insert key t db.approval_requests) ≡ some u)
        × Steps iso parse_time r u
  lookup-Step id key r s t db there here step = elim (Bool-cases (key == id)) [
    | inr differ ↦ (r, rw lookup-insert (rw (differ, there) refl), start)
    | inl same ↦ (
      t,
      rw lookup-insert (rw same refl),
      next (Steps-same r s (ground (arith, eq_iff key id))) step,
    )
  ]

  status_pending : (x : ApprovalStatus) → is_pending x ≡ true → x ≡ pending
  status_pending pending h = refl
  status_pending approved h = cc
  status_pending rejected h = cc
  status_pending expired h = cc
  status_pending superseded h = cc

  and_false : (b : Bool) → (b && false) ≡ false
  and_false true = refl
  and_false false = refl

  resolve-Follows :
      (id : String) (r : ApprovalRequest) (input : ResolveInput) (now : ℕ) (db : Database)
      → lookup id db.approval_requests ≡ some r
      → Follows id r (resolve_request uuid clock iso parse_time input now db).0
  unfolding resolve_request audit
  resolve-Follows id r input now db there =
      let expires : (s : ApprovalRequest)
          → lookup input.id db.approval_requests ≡ some s
          → is_past (parse_time s.expires_at) now ≡ true
          → is_pending s.status || is_approved s.status ≡ true
          → (u : ApprovalRequest) × (lookup id
                (insert input.id (resolved_to expired (iso now) s) db.approval_requests)
              ≡ some u)
            × Steps iso parse_time r u =
        λ s here past h. lookup-Step id input.id r s _ db there here (lapsed now h past) in
      elim (Option-cases (lookup input.id db.approval_requests)) [
        | inl absent ↦ rw absent (Follows-stay id r db there)
        | inr (s, here) ↦ rw here (elim (Bool-cases (misses_hash s input)) [
          | inl missing ↦ rw missing (r, there, start)
          | inr has_hash ↦ rw has_hash (elim (Bool-cases (differs_hash s input)) [
            | inl other ↦ rw other (r, there, start)
            | inr matches ↦ rw matches (elim (Bool-cases (is_past (parse_time s.expires_at) now)) [
              | inl past ↦ rw past (elim (Bool-cases (is_approved s.status)) [
                | inl done ↦ rw done (expires s here past (ground (arith)))
                | inr undone ↦ rw undone (elim (Bool-cases (is_pending s.status)) [
                  | inl waiting ↦ rw waiting (expires s here past (ground (arith)))
                  | inr closed ↦ rw closed (r, there, start)
                ])
              ])
              | inr early ↦
                  rw (early, and_false (is_approved s.status))
                    (elim (Bool-cases (is_pending s.status)) [
                      | inl waiting ↦ rw waiting (
                          lookup-Step id input.id r s _ db there here (
                            decided input now (status_pending s.status waiting) early has_hash
                              matches))
                      | inr closed ↦ rw closed (r, there, start)
                    ])
            ])
          ])
        ])
      ]

  create-Follows :
      (id : String) (r : ApprovalRequest) (d : Draft) (now : ℕ) (db : Database)
      → uuid db.drawn ≢ id
      → lookup id db.approval_requests ≡ some r
      → Follows id r (create_request uuid clock iso parse_time d now db).0
  unfolding create_request audit
  create-Follows id r d now db new there =
      elim (Option-cases (find (repeats d) (values db.approval_requests))) [
        | inl none_yet ↦
            rw none_yet (r, rw (lookup-insert_ne _ id _ db.approval_requests new) there, start)
        | inr (existing, found) ↦ rw found (r, there, start)
      ]

  pub requests-audit_expired :
      (rs : List ApprovalRequest) (now : ℕ) (db : Database)
      → (audit_expired uuid clock iso parse_time rs now db).approval_requests ≡ db.approval_requests
  unfolding audit_expired audit
  requests-audit_expired [] now db = refl
  requests-audit_expired (r ∷ rs) now db =
      requests-audit_expired rs now (audit uuid clock iso parse_time _ _ _ _ now db)

  drawn-audit_expired :
      (rs : List ApprovalRequest) (now : ℕ) (db : Database)
      → db.drawn ≤ (audit_expired uuid clock iso parse_time rs now db).drawn
  unfolding audit_expired audit
  drawn-audit_expired [] now db = omega arith
  drawn-audit_expired (r ∷ rs) now db =
      omega (arith, drawn-audit_expired rs now (audit uuid clock iso parse_time _ _ _ _ now db))

  expire_all-Follows :
      (id : String) (r : ApprovalRequest) (now : ℕ) (m : Dict ApprovalRequest)
      → lookup id m ≡ some r
      → (u : ApprovalRequest) × (lookup id (expire_all uuid clock iso parse_time now m).0 ≡ some u)
        × Steps iso parse_time r u
  unfolding expire_all lookup
  expire_all-Follows id r now [] there = cc
  expire_all-Follows id r now ((key, s) ∷ m) there = elim (Bool-cases (key == id)) [
    | inr differ ↦ elim (Bool-cases (is_overdue parse_time now s)) [
      | inl over ↦ rw (over, differ) (expire_all-Follows id r now m (rw differ at there))
      | inr kept ↦ rw (kept, differ) (expire_all-Follows id r now m (rw differ at there))
    ]
    | inl same ↦
        let came = Steps-same r s (ground (arith, rw same at there)) in
        elim (Bool-cases (is_overdue parse_time now s)) [
          | inl over ↦
              rw (over, same) (_, refl, next came (lapsed now (ground arith) (ground arith)))
          | inr kept ↦ rw (kept, same) (s, refl, came)
        ]
  ]

  drawn-resolve :
      (input : ResolveInput) (now : ℕ) (db : Database)
      → db.drawn ≤ (resolve_request uuid clock iso parse_time input now db).0.drawn
  unfolding resolve_request audit
  drawn-resolve input now db = elim (Option-cases (lookup input.id db.approval_requests)) [
    | inl absent ↦ rw absent (omega arith)
    | inr (s, here) ↦ rw here (ground arith)
  ]

  drawn-perform : (db : Database) (c : Call) → db.drawn ≤ (perform db c).drawn
  unfolding perform create_request expire_requests audit
  drawn-perform db (create_call d now) = ground arith
  drawn-perform db (resolve_call input now) = drawn-resolve input now db
  drawn-perform db (expire_call now) = omega (
    arith,
    drawn-audit_expired _ now (record db {
      approval_requests = (expire_all uuid clock iso parse_time now db.approval_requests).0;
    }),
  )

  perform-Follows :
      (id : String) (r : ApprovalRequest) (c : Call) (db : Database)
      → uuid db.drawn ≢ id
      → lookup id db.approval_requests ≡ some r
      → Follows id r (perform db c)
  unfolding perform expire_requests
  perform-Follows id r (create_call d now) db new there = create-Follows id r d now db new there
  perform-Follows id r (resolve_call input now) db new there =
      resolve-Follows id r input now db there
  perform-Follows id r (expire_call now) db new there =
      rw requests-audit_expired (expire_all-Follows id r now db.approval_requests there)

  Steps-trans :
      {r s t : ApprovalRequest}
      → Steps iso parse_time r s
      → Steps iso parse_time s t
      → Steps iso parse_time r t
  Steps-trans a start = a
  Steps-trans a (next b c) = next (Steps-trans a b) c

  -- A request that the database holds is held under the same id after any calls of
  -- `create_request`, `resolve_request` and `expire_requests`, if `randomUUID` does not return that id
  -- again; and it has come from the first by steps, each of which is a decision on a pending request
  -- before its expiry with its draft hash, or the expiry of a pending or an approved one.
  pub perform_all-Follows :
      (id : String) (r : ApprovalRequest) (cs : List Call) (db : Database)
      → ((n : ℕ) → db.drawn ≤ n → uuid n ≢ id)
      → lookup id db.approval_requests ≡ some r
      → Follows id r (perform_all db cs)
  unfolding perform_all
  perform_all-Follows id r [] db new there = Follows-stay id r db there
  perform_all-Follows id r (c ∷ cs) db new there =
      let (s, at_s, first) = perform-Follows id r c db (new db.drawn (omega arith)) there in
      let (t, at_t, rest) =
        perform_all-Follows id s cs (perform db c)
          (λ n h. new n (omega (arith, drawn-perform db c))) at_s in
      (t, at_t, Steps-trans first rest)
