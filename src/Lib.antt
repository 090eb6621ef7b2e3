-- ===== src/Lib.antt =====
-- Fleetward: a control plane that schedules, runs, verifies and retains database backups.
--
-- The parts and how they interact. A schedule declares a recurring intent. At each tick the scheduler
-- turns due schedules into rows of `jobs` (materialize), leases one row at a time to a process
-- (claim), runs it through the backup, verification, observation or discovery service, keeps the
-- lease by heartbeats (renew), and closes it (finish, release, or the service's own statements). A
-- reap closes jobs whose process stopped reporting. Retention expires backups that have outlived
-- what their schedule declared and deletes their objects. Adherence asks whether the backup that was
-- expected happened. A pass over the alert rules asks what is wrong with the estate, opens an alert
-- for what is new and resolves what is gone. The guard decides on each request what its caller may do.
--
-- Which file models which part:
-- - Base: lists as tables. `update` and `affected` are an UPDATE and its count, `row` a SELECT by
--   primary key, `where_rows`, `sort_on` and `take` are WHERE, ORDER BY and LIMIT.
-- - Scheduler/Rows, Scheduler/Lease, Scheduler/Reaper: internal/controlplane/scheduler/lease.go and
--   the tables of internal/storage/metadb/migrations. `claim`, `renew`, `release`, `finish` and `reap`
--   carry the names of the functions.
-- - Scheduler/Jobs: every statement that writes `jobs`, as an event; a history is a list of events.
--   `started_job` is the insert of createRows and createVerificationRows, `record_success` and
--   `record_end` are the last statements of recordSuccess, recordFailure and recordVerification, in
--   internal/controlplane/backup.
-- - Scheduler/Cron, Scheduler/Schedules, Scheduler/Materialize, Scheduler/Runner: cron.go, service.go
--   and runner.go of internal/controlplane/scheduler.
-- - Backup/Retention: internal/controlplane/backup/retention.go. The common table expression is
--   `is_candidate`, `floor_recent`, `floor_verified` and `is_busy`; `sweep_retention` is its two steps.
-- - Backup/Adherence: internal/controlplane/backup/adherence.go.
-- - Backup/Runs: a backup and a verification as they run. Transfer is `transfer` and `stream` of
--   internal/controlplane/backup/service.go; Verify is verify.go there, with Run of
--   internal/controlplane/sandbox/sandbox.go. A plugin's stream is the list of what Recv returns.
--   Recording is what createRows, recordSuccess and recordFailure write to `backups`. Methods is
--   internal/plugin/sdk/capabilities.go with selectMethod, validateOptions and requireSharedDirectory.
-- - Backup/Observe: internal/controlplane/backup/observe.go, the loop of ObserveBackupHistory, its
--   upsert and its watermark.
-- - Backup/System: execute, reap, polls and the two halves of a sweep as statements that interleave, on
--   one table and one store. A `Run` is a call of execute, which holds what the tables do not.
-- - Scheduler/Jobs/Orphan: what becomes of a job without a lease, which the backup service inserts
--   for a run that a person asked for.
-- - Alerts/Vocabulary, Alerts/Rules, Alerts/Evaluate, Alerts/Evaluators: evaluate.go and service.go of
--   internal/controlplane/alerts. `evaluate` is Evaluate, `evaluate_kind` is evaluateKind over the rows
--   of an `Estate`; a history of passes and requests is in Alerts/Evaluate/History.
-- - Authz/Principal, Authz/Scope, Authz/Guard: internal/controlplane/authn/authn.go, and scope.go,
--   policy.go and guard.go of internal/controlplane/authz.
-- - Authz/Enforce: enforce.go there, a call behind the guard with its entry in the audit log, which
--   Record of internal/controlplane/audit/audit.go may drop.
--
-- How code corresponds to definitions. A statement is a function of the table and of the instant at
-- which the database carries it out; concurrent processes are the order in which their statements
-- reach it. A transaction is one function. A UUID is a number, an instant a count of microseconds
-- since Go's zero time, a duration a count of microseconds, a nullable column an `Option`. An int32 is
-- `ℤ`: the program does no arithmetic on one that could wrap. Errors that the code tells apart are
-- data types; the text of an error is modelled where a client reads it. The threshold of a rule is a
-- count of thousandths in place of a float64.
--
-- Parameters, with what the code relies on: the cron parser and the time zone database (`Cron`, whose
-- `next` is later than its argument or the zero time), the object store (`ObjectStore`, whose
-- deletions leave no object and put none), encoding/json (`Json`), the services behind the scheduler
-- (`Runner`, which may write the job table as it likes), the answers of the database where a statement
-- may fail (`World`, `mark_error`, `Lookup`), the rows that SKIP LOCKED passes over,
-- the id that reflection reads off a generated response (`created_by`), the database's answer to the
-- INSERT of an audit entry (`accepts`), the multipart uploads of the store (`Uploads`, of which a failed
-- completion may leave an object or none), the container runtime (`Provider`), a plugin's answers (`Plugin`, the list of what
-- Recv returns), the database's answers to one pass of alerts (`Answers`), and how an instant, a count
-- and an id read as text (`Texts`, `uuid`).
--
-- Bounds and fuel. Retention lists and deletions run over the rows themselves. The search for the last
-- occurrence takes fuel for its inner loop, and as many steps as there are microseconds up to the
-- instant asked about are enough; its windows end after seven. Decimal printing takes as much fuel as
-- the number, which has no more digits than that. A poll reads twenty pages, as
-- observeMaxPages has it.
--
-- Not modelled: network and process input and output, logging, generated code, the engines' plugins,
-- the container runtime behind a sandbox, the delivery of alerts, inventory, tokens and sessions, and
-- the reads that only render rows. The rows of `backups` and `verifications` carry the columns that the
-- modelled parts read and write.
--
pub mod Base
pub mod Scheduler
pub mod Backup
pub mod Authz
pub mod Alerts
