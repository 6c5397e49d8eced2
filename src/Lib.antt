-- ===== src/Lib.antt =====
-- The core of the Telegram job-search automation: what decides that an irreversible action (an
-- application, a reply to a recruiter, an interview slot) may be taken, and the queues, records and
-- limits that this decision stands on.
--
-- Parts of the program, and the files that model them (paths from the repository's root):
--
--   packages/domain/src/types.ts, schemas.ts   Domain/Types, Domain/Profile, Domain/Json
--   packages/domain/src/services.ts
--     keys and text normalization              Domain/Keys, Domain/Text
--     PolicyEngine                             Domain/Policy
--     SubmitGuardSequence, ReviewFirstSubmitGate, SubmitApprovalOrchestrator,
--     ControlledAutoApplyEligibility, AutoApplyRampController
--                                              Domain/Submit
--     DedupEngine                              Domain/Dedup
--     RateLimitService                         Domain/RateLimiter
--     ApplicationLifecycle                     Domain/Lifecycle
--     ProfileReadinessValidator                Domain/Readiness
--     ResumeRouter, CoverLetterEngine          Domain/Letters
--     validateOutbound, OutboundDispatchService
--                                              Outbound
--   packages/db/src/rate-limits.ts             Limits, Limits/Rules
--   packages/db/src/queue.ts
--     queue names, policies, tasks, runs       Queue
--     payload schemas, sanitizeQueuePayload    Queue/Payload
--     IdempotencyService                       Queue/Idempotency
--     InMemoryTaskRunStore                     Queue/TaskRuns
--     executeQueueTask                         Queue/Execute
--     InMemoryQueueAdapter                     Queue/Adapter
--     BullMqQueueAdapter.enqueue, job to task  Queue/BullMq
--   packages/db/src/index.ts
--     approval requests and their audit events Approvals
--     policy checks, release evidence          Records/Evidence
--     applications, proof packs                Records, Records/Applications
--     manual reviews, provider safe mode       Records, Records/Reviews
--     recordOutboundDispatch                   Outbound/Records
--   apps/worker-apply/src/runner.ts
--     checks before a live submission          ApplyWorker, ApplyWorker/Guard
--     buildApprovedApplicationDraft            ApplyWorker/Draft
--     processApprovedSubmit                    ApplyWorker/Process, ApplyWorker/Writes
--   packages/automation/src/index.ts
--     pages, FingerprintEngine, SelectorRegistry
--                                              Automation
--     DeterministicFlowRunner                  Automation/Runner
--     hhDryRunFlow, robotaDryRunFlow           Automation/Flows
--     sessions, stored state, artifact access, canaries, replays
--                                              Automation/Canary
--
-- How they interact: the policy engine's answer is an input of the guard and of the review-first
-- gate, whose answer, with an approval from the database, makes the orchestrator enqueue a submission.
-- The rate limits give the policy engine its `rateLimitAvailable`. The apply worker checks the
-- approval of the task's payload again, and computes policy and guard anew from what it reads. A
-- submission is a task of `auto_apply_queue`; the adapter keeps one task per idempotency key, creates
-- its run in the task-run store, and `executeQueueTask` drives the run through the store, to success,
-- to a failure that may be retried, or to a dead letter. A dry run walks a flow of states over pages and
-- stops before the submission; its proof pack is what the apply worker asks for. A run that shows an
-- incident marks its provider in the database; the apply worker reads the provider's own health check
-- and overwrites the mark. A reply is dispatched
-- under a policy answer and an approval, and its result is recorded under its idempotency key.
--
-- State is explicit: a database, a store, a map of records is a record or an association list that an
-- operation takes and returns, next to its result. A call that throws returns `none` (or an ending of
-- its own, in Queue/Execute). Operations of the model have the source's names in lower case with
-- underscores; a method's clock (`new Date()`, `Date.now()`) is an argument, and where a call is given a
-- time as well, as with approval requests, `clock` tells what the machine's clock shows.
--
-- Numbers are natural numbers. Times are milliseconds; a text that `Date` cannot read is `none`, with
-- which every comparison is false, as with NaN. A failure rate is in ten-thousandths, a confidence in
-- percent. A loop over a list or a text recurs on it. The loop of the flow runner has 25
-- rounds in the source, and recurs on how many are left; no other fuel is used.
--
-- Parameters, for what is not the program's own: SHA-256 (`sha256_hex`), `toLowerCase`
-- (`to_lower_case`), the printing of numbers (`decimal`), `randomUUID` (`uuid`, indexed by how many
-- identifiers have been drawn), `toISOString` (`iso`), `Date.parse` (`parse_time`), zod's view of a
-- schema's shape (`shape_ok`), the test of a title's regular expression (`title_matches`), the text of a
-- validation (`validation_text`), `JSON.stringify` (`stringify`), `trim`, the
-- answers of a provider and of the provider registry, what bullmq's `add` throws, and a queue handler.
--
-- Not modelled: the Postgres subclasses (SQL around the same operations) and the rest of the BullMQ
-- adapter (Redis), the HTTP API, the Telegram bot, the other workers, the Playwright context and files
-- of browser artifacts, providers, configuration, LLM calls, metrics and scripts; of the apply worker,
-- its queue wrapper, the dry run, and a health check that throws; of the database, jobs, inbound messages and interviews; of the domain services, scoring, the classification
-- of conversations, scheduling, retention and release evidence.
pub mod ApplyWorker
pub mod Approvals
pub mod Automation
pub mod Common
pub mod Domain
pub mod Limits
pub mod Outbound
pub mod Queue
pub mod Records
