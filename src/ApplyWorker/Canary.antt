-- ===== src/ApplyWorker/Canary.antt =====
-- apps/worker-apply/src/runner.ts: when `hasFreshPassedCanary` holds.
use mathlib.Core.List.{Memᴰ}
use telegram_job_search_auto.Common.{
  ℕ, ◌+◌, ◌*◌, ◌≤◌, String, Bool, true, ◌≡◌, refl, ◌↔◌, Option, none, some, List, ◌==◌, ◌&&◌, arith,
  any_sound, any_complete, eq_iff,
}
use telegram_job_search_auto.ApplyWorker.{CanaryRunRecord, is_fresh, has_fresh_passed_canary}

-- One of the runs is a passed one of the provider, with a time that can be read and that is at most
-- a day before `now`.
pub record HasCanary (parse_time : String → Option ℕ) (runs : List CanaryRunRecord)
    (provider_id : String) (now : ℕ) : Type 0 where
  pub run : CanaryRunRecord
  pub at : ℕ
  pub listed : Memᴰ run runs
  pub of_provider : run.provider_id ≡ provider_id
  pub passed : run.status ≡ "passed"
  pub dated : parse_time run.created_at ≡ some at
  pub fresh : now ≤ at + 24 * 60 * 60 * 1000

fresh_sound :
    (o : Option ℕ) (now : ℕ)
    → is_fresh o now ≡ true
    → (t : ℕ) × (o ≡ some t) × (now ≤ t + 24 * 60 * 60 * 1000)
fresh_sound none now h = ground arith
fresh_sound (some t) now h = (t, refl, ground arith)

abbrev counts : (String → Option ℕ) → String → ℕ → CanaryRunRecord → Bool
counts parse_time provider_id now r =
    (r.provider_id == provider_id)
    && (r.status == "passed")
    && is_fresh (parse_time r.created_at) now

canary_sound :
    (parse_time : String → Option ℕ) (runs : List CanaryRunRecord) (provider_id : String) (now : ℕ)
    → has_fresh_passed_canary parse_time runs provider_id now ≡ true
    → HasCanary parse_time runs provider_id now
unfolding has_fresh_passed_canary
canary_sound parse_time runs provider_id now h =
    let (run, listed, meets) = any_sound (counts parse_time provider_id now) runs h in
    let (at, dated, fresh) = fresh_sound (parse_time run.created_at) now (ground arith) in
    record {
      run = run;
      at = at;
      listed = listed;
      of_provider = ground (arith, eq_iff run.provider_id provider_id);
      passed = ground (arith, eq_iff run.status "passed");
      dated = dated;
      fresh = fresh;
    }

counts_complete :
    (parse_time : String → Option ℕ) (provider_id : String) (now at : ℕ) (r : CanaryRunRecord)
    → r.provider_id ≡ provider_id
    → r.status ≡ "passed"
    → parse_time r.created_at ≡ some at
    → now ≤ at + 24 * 60 * 60 * 1000
    → counts parse_time provider_id now r ≡ true
counts_complete parse_time provider_id now at r mine passed dated fresh =
    rw (dated, mine, passed)
      (ground (arith, eq_iff provider_id provider_id, eq_iff "passed" "passed"))

canary_complete :
    (parse_time : String → Option ℕ) (runs : List CanaryRunRecord) (provider_id : String) (now : ℕ)
    → HasCanary parse_time runs provider_id now
    → has_fresh_passed_canary parse_time runs provider_id now ≡ true
unfolding has_fresh_passed_canary
canary_complete parse_time runs provider_id now h =
    any_complete (counts parse_time provider_id now) runs h.listed
      (counts_complete parse_time provider_id now h.at h.run h.of_provider h.passed h.dated h.fresh)

pub has_fresh_passed_canary_iff :
    (parse_time : String → Option ℕ) (runs : List CanaryRunRecord) (provider_id : String) (now : ℕ)
    → (has_fresh_passed_canary parse_time runs provider_id now ≡ true)
      ↔ HasCanary parse_time runs provider_id now
has_fresh_passed_canary_iff parse_time runs provider_id now =
    (canary_sound parse_time runs provider_id now, canary_complete parse_time runs provider_id now)
