-- ===== src/Limits/Assess.antt =====
-- When the history leaves room for one more application, or one more reply.
use telegram_job_search_auto.Common.{
  ℕ, ◌<◌, String, Bool, true, not, ◌≡◌, refl, ◌↔◌, List, [], ◌∷◌, ◌==◌, keep, is_empty, map,
  or_else, every, arith, concat, every_iff_All, All-every,
}
use telegram_job_search_auto.Domain.Submit.{Timestamp}
use telegram_job_search_auto.Limits.{
  ApplicationLimitRecord, OutboundLimitRecord, RateLimitCheck, hour_ms, day_ms, week_ms,
  build_window_check, summarize_checks,
}
use telegram_job_search_auto.Limits.Rules.{
  ApplicationLimitInput, ReplyLimitInput, counted_applications, counted_messages, times,
  message_times, same_company_applications, same_clone_group_applications, application_checks,
  evaluate_application_rate_limits, same_company_messages, reply_checks, evaluate_reply_rate_limits,
}
use telegram_job_search_auto.Limits.Windows.{count_in_window, build_window_check-counts}

abbrev reason_of : RateLimitCheck → String
reason_of c = or_else c.reason (concat (c.name ∷ "_exhausted" ∷ []))

no_reason :
    (cs : List RateLimitCheck)
    → is_empty (map reason_of (keep (λ c. not c.allowed) cs)) ≡ every (λ c. c.allowed) cs
no_reason [] = refl
no_reason (c ∷ cs) = ground (arith, no_reason cs)

-- An assessment allows exactly when every check does, which is exactly when it has no reason.
pub summarize_checks-allowed_iff :
    (cs : List RateLimitCheck)
    → ((summarize_checks cs).allowed ≡ every (λ c. c.allowed) cs)
      × (((summarize_checks cs).reasons ≡ []) ↔ ((summarize_checks cs).allowed ≡ true))
unfolding summarize_checks
summarize_checks-allowed_iff cs = (no_reason cs, nil_iff _)
  where
    nil_iff : (xs : List String) → (xs ≡ []) ↔ (is_empty xs ≡ true)
    nil_iff [] = ground arith
    nil_iff (x ∷ xs) = ground arith

allowed_iff :
    (name key : String) (limit : ℕ) (ts : List Timestamp) (w now : ℕ)
    → ((build_window_check name key limit ts w now).allowed ≡ true)
      ↔ (count_in_window w now ts < limit)
allowed_iff name key limit ts w now = (build_window_check-counts name key limit ts w now).0

abbrev is_allowed : RateLimitCheck → Bool
is_allowed c = c.allowed

below_one : (n : ℕ) → n < 1 → n ≡ 0
below_one n h = omega arith

zero_below : (n : ℕ) → n ≡ 0 → n < 1
zero_below n h = omega arith

module _ (to_lower_case sha256_hex : String → String) where
  -- The seven windows have room.
  pub record HasRoom (i : ApplicationLimitInput) (now : ℕ) : Type 0 where
    pub hour :
        count_in_window hour_ms now (times (counted_applications i))
        < i.profile.rate_limits.applications_per_hour
    pub day :
        count_in_window day_ms now (times (counted_applications i))
        < i.profile.rate_limits.applications_per_day
    pub provider_hour :
        count_in_window hour_ms now (
          times (
            keep
              (λ (a : ApplicationLimitRecord).
                a.provider_id == or_else i.provider_id i.job.source_provider)
              (counted_applications i)))
        < i.profile.rate_limits.applications_per_hour
    pub company_day :
        count_in_window day_ms now (times (same_company_applications to_lower_case sha256_hex i))
        < i.profile.rate_limits.max_per_company_per_day
    pub company_week :
        count_in_window week_ms now (times (same_company_applications to_lower_case sha256_hex i))
        < i.profile.rate_limits.max_per_company_per_week
    pub clone_day :
        count_in_window day_ms now
          (times (same_clone_group_applications to_lower_case sha256_hex i))
        < i.profile.rate_limits.max_per_company_per_day
    pub clone_week :
        count_in_window week_ms now
          (times (same_clone_group_applications to_lower_case sha256_hex i))
        < i.profile.rate_limits.max_per_company_per_week

  -- An application is within the limits exactly when each of the seven windows (per hour, per day,
  -- per provider and hour, per company and per clone group by day and by week) has room.
  pub evaluate_application_rate_limits-allowed_iff :
      (i : ApplicationLimitInput) (now : ℕ)
      → ((evaluate_application_rate_limits to_lower_case sha256_hex i now).allowed ≡ true)
        ↔ HasRoom i now
  unfolding evaluate_application_rate_limits application_checks
  evaluate_application_rate_limits-allowed_iff i now =
      rw (summarize_checks-allowed_iff _).0 (sound, complete)
    where
      sound :
          every (λ c. c.allowed) (application_checks to_lower_case sha256_hex i now) ≡ true
          → HasRoom i now
      sound h =
          let (a, (b, (c, (d, (e, (f, (g, _))))))) =
            every_iff_All is_allowed (application_checks to_lower_case sha256_hex i now) h in
          record {
            hour = (allowed_iff _ _ _ _ _ _).0 a;
            day = (allowed_iff _ _ _ _ _ _).0 b;
            provider_hour = (allowed_iff _ _ _ _ _ _).0 c;
            company_day = (allowed_iff _ _ _ _ _ _).0 d;
            company_week = (allowed_iff _ _ _ _ _ _).0 e;
            clone_day = (allowed_iff _ _ _ _ _ _).0 f;
            clone_week = (allowed_iff _ _ _ _ _ _).0 g;
          }

      complete :
          HasRoom i now
          → every (λ c. c.allowed) (application_checks to_lower_case sha256_hex i now) ≡ true
      complete h = All-every is_allowed (application_checks to_lower_case sha256_hex i now) (
        (allowed_iff _ _ _ _ _ _).1 h.hour,
        (
          (allowed_iff _ _ _ _ _ _).1 h.day,
          (
            (allowed_iff _ _ _ _ _ _).1 h.provider_hour,
            (
              (allowed_iff _ _ _ _ _ _).1 h.company_day,
              (
                (allowed_iff _ _ _ _ _ _).1 h.company_week,
                (
                  (allowed_iff _ _ _ _ _ _).1 h.clone_day,
                  ((allowed_iff _ _ _ _ _ _).1 h.clone_week, tt),
                ),
              ),
            ),
          ),
        ),
      )

  -- The four windows of replies have room; a conversation gets at most one reply a day.
  pub record HasReplyRoom (i : ReplyLimitInput) (now : ℕ) : Type 0 where
    pub hour :
        count_in_window hour_ms now (message_times (counted_messages i))
        < i.profile.rate_limits.applications_per_hour
    pub conversation_day :
        count_in_window day_ms now (
          message_times (
            keep
              (λ (m : OutboundLimitRecord). m.conversation_id == i.conversation_id)
              (counted_messages i)))
        ≡ 0
    pub company_day :
        count_in_window day_ms now
          (message_times (same_company_messages to_lower_case sha256_hex i))
        < i.profile.rate_limits.max_per_company_per_day
    pub company_week :
        count_in_window week_ms now
          (message_times (same_company_messages to_lower_case sha256_hex i))
        < i.profile.rate_limits.max_per_company_per_week

  -- A reply is within the limits exactly when the hour, the company's day and the company's week
  -- have room and the conversation has had no counted reply in a day.
  pub evaluate_reply_rate_limits-allowed_iff :
      (i : ReplyLimitInput) (now : ℕ)
      → ((evaluate_reply_rate_limits to_lower_case sha256_hex i now).allowed ≡ true)
        ↔ HasReplyRoom i now
  unfolding evaluate_reply_rate_limits reply_checks
  evaluate_reply_rate_limits-allowed_iff i now =
      rw (summarize_checks-allowed_iff _).0 (sound, complete)
    where
      sound :
          every (λ c. c.allowed) (reply_checks to_lower_case sha256_hex i now) ≡ true
          → HasReplyRoom i now
      sound h =
          let (a, (b, (c, (d, _)))) =
            every_iff_All is_allowed (reply_checks to_lower_case sha256_hex i now) h in
          record {
            hour = (allowed_iff _ _ _ _ _ _).0 a;
            conversation_day = below_one _ ((allowed_iff _ _ _ _ _ _).0 b);
            company_day = (allowed_iff _ _ _ _ _ _).0 c;
            company_week = (allowed_iff _ _ _ _ _ _).0 d;
          }

      complete :
          HasReplyRoom i now
          → every (λ c. c.allowed) (reply_checks to_lower_case sha256_hex i now) ≡ true
      complete h = All-every is_allowed (reply_checks to_lower_case sha256_hex i now) (
        (allowed_iff _ _ _ _ _ _).1 h.hour,
        (
          (allowed_iff _ _ _ _ _ _).1 (zero_below _ h.conversation_day),
          (
            (allowed_iff _ _ _ _ _ _).1 h.company_day,
            ((allowed_iff _ _ _ _ _ _).1 h.company_week, tt),
          ),
        ),
      )
