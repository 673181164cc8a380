-- ===== src/Lib.antt =====
-- Sightpane: error tracking, product analytics and uptime, cron and metric alerts. This library
-- models the parts of the server that decide something, as functions on the rows of its tables, and
-- proves what those parts promise one another.
--
-- Files and code (paths from the repository's root):
--   Prelude      Boolean tests, lists as tables (a query for one row is `find`, an UPDATE
--                `update_where`, a DELETE `keep`), integers, and texts as lists of code points.
--   Semver       internal/store/semver.go, CompareVersions: `compare_versions`.
--   Issue        internal/store/ingest.go (the "error" case of Ingest), internal/store/query.go
--                (Issue, SetIssueResolved) and internal/store/issue_workflow.go. Issue/Rule is
--                MatchFingerprintRule, Issue/Decide the status and the event that an error leads to,
--                Issue/Occurrence the upsert, Issue/Workflow the operations on one issue, Issue/Merge
--                MergeIssue. An ingested error consults Semver for an issue resolved in a release.
--   Cron         internal/store/crons.go. Cron/Schedule is ComputeNextExpected, Cron/Checkin
--                RecordCronCheckin and GetCronStats, Cron/Deadline EvaluateCronDeadlines.
--   Flag         internal/store/feature_flags.go. Flag/Filter is matchesFilter, Flag/Evaluate
--                EvaluateFlag, Flag/Table the rows and EvaluateProjectFlags.
--   MetricAlert  internal/store/metric_alerts.go (MetricAlert/Rules, MetricAlert/Incidents),
--                internal/alert/anomaly.go (MetricAlert/Anomaly) and the state machine of
--                internal/alert/metric_worker.go (MetricAlert/Worker).
--   Funnel       internal/store/funnels.go: CalculateFunnelResults (its counts) and
--                GetFunnelDropoffs, for a step index that is not negative.
--   Limiter      internal/server/limiter.go: the token bucket of a project, `allow`.
--   Uptime       internal/store/uptime.go (Uptime/Monitors, Uptime/Checks), CheckMonitor of
--                internal/uptime/checker.go and RunOnce of internal/uptime/runner.go (Uptime/Runner).
--
--   Symbol       internal/symbol/symbol.go: the keys and labels, the cache of source maps as its critical
--                sections (Symbol/Cache) and Resolve (Symbol/Cache/Resolve).
--   Access       internal/store/auth.go (Access/Password, Access/Accounts), internal/store/org.go
--                (Access/Orgs) and the checks of internal/server/middleware.go (Access/Gate), which
--                read the tables of both.
--   Experiment   internal/store/experiments.go: the life cycle, which ends in a write to the table of
--                Flag, and the counts of the results (Experiment/Results), which evaluate the flag.
--   Alert        internal/store/alert.go (Alert/Tables) and internal/alert/notifier.go: handleIssueEvent
--                (Alert/Deliver), evaluateRateRules (Alert/Rates) and the worker (Alert/Worker).
--   Survey       internal/store/surveys.go: the rows (Survey/Table), the surveys that the server
--                schedules (Survey/Due) and the results (Survey/Results).
--   Cohort       internal/store/cohorts.go: the rows (Cohort/Table), what a rule counts (Cohort/Count)
--                and RefreshCohortMembers (Cohort/Refresh).
--
-- State. A table is a list of records with the next value of its id sequence; a function of the
-- store takes the tables it writes and returns them, with its reply or its error. A transaction
-- that fails returns no table, since it is rolled back. The database answers: errors of the
-- connection are left out, refusals by a UNIQUE, a CHECK or a NUMERIC column are not. The clock is an
-- argument. One operation runs at a time; only in Symbol do the critical sections of several goroutines
-- interleave, with the loads between them outside the lock.
--
-- Numbers. A count, an id and an instant (nanoseconds) is a natural number, a number that a request
-- chooses is an integer. Sums are taken to fit an int64; the cooldown of a rate rule, a product that
-- a request can make overflow, wraps around. The float64 numbers of the limiter are taken to be exact,
-- in units of which 60 · 10⁹ are a token. Two loops have fuel: the digits
-- of a number n take n rounds, more than it has digits, and an eviction a round for each entry of the
-- cache, since each takes one out. Every other loop runs over a list.
--
-- Parameters. unicode.ToLower and filepath.Match in Issue/Rule; robfig/cron and the time zones in
-- `CronLib`, whose law `NextIsLater` is the documented behaviour of Schedule.Next on a schedule that
-- fires again; SHA-256, regular expressions, printing and reading of numbers in `FlagLib`; float64
-- and the columns NUMERIC(10, 2) in `FloatLib`; a percentage in NUMERIC(5, 2) in `PercentLib`; the
-- answers of the network to a check in `Answers`; PBKDF2, SHA-256 and unicode.ToLower in `AccessLib`,
-- with the law `KeyIsBytes` that a key is as many bytes as were asked for; go-sourcemap in `MapLib`
-- and the store of the maps in `Loader`; float64 and AVG in `SurveyLib`,
-- float64 and unicode.ToLower in `RateLib`, and
-- the outcome of the attempts to notify in `Send`; in `CohortLib` how the database takes the cutoff of
-- a window, with the law `CountsDays` that it takes up to a million days as they are.
--
-- Not modelled: the HTTP handlers and the wiring in main.go, input and output (blobs, notifications,
-- network checks, the database reader), queries that only aggregate, the tickers of the workers,
-- comments on issues, the audit log, the statistics of experiments (float64), and the rest of the
-- ingest loop.
pub mod Access
pub mod Alert
pub mod Cohort
pub mod Cron
pub mod Experiment
pub mod Flag
pub mod Funnel
pub mod Issue
pub mod Limiter
pub mod MetricAlert
pub mod Prelude
pub mod Semver
pub mod Survey
pub mod Symbol
pub mod Uptime
