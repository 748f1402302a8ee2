-- ===== src/Lib.antt =====
-- Traio: the ledger of account history, its jobs and reconciliation, users and sessions, the candle
-- cache and order entry.
--
-- The program is a trading server in Go. Its history service asks brokers for reports of past
-- activity and keeps them in a ledger: durable jobs in a database table are claimed by workers
-- under leases, a worker fetches and stores the records, normalizes them into activities of cash and
-- position legs, and reconciles the accounts between two reported snapshots. A scheduler asks for
-- old windows of days until stored coverage is complete. Order entry keeps a session for each
-- connection, which lets a previewed order through once. Users sign in through a provider or with the
-- built-in account, become members of a workspace with a role, and hold sessions.
--
-- Prelude, Text, Rat, Date: what the packages strings, math/big and time do of what the program
--   calls. A text that is read character by character is its list of code points. A rational is a
--   difference of two numbers over a denominator, which is never reduced.
-- Activity: internal/activity. Decimal is decimal.go (canonical_decimal is CanonicalDecimal, exact,
--   add, sub, mul are exact, Add, Sub, Mul), Types is types.go and snapshots.go, Validation and
--   Reconcile are validation.go.
-- History.Jobs: internal/store/activity_jobs.go, the table of jobs and its operations (claim is
--   ClaimHistoryJob, renew RenewHistoryJob, finish FinishHistoryJob, create createHistoryJobTx) and
--   checkHistoryLease of activity_records.go. An operation is a function on the table, one
--   transaction; the step relation of Reach interleaves them with the passing of time.
-- History.Schedule: internal/history/scheduler.go (days_cover is intervalsCover, day_windows is
--   historyWindows). History.Worker: internal/history/worker.go, without the job run itself.
-- History.Requests: internal/history/service.go, the source and the dates of a request
--   (preferred_source, validate_connection_source, normalize_request_dates). History.Snapshots:
--   validateReconciliationSnapshot of internal/store/activity_reconciliation.go.
-- History.Balances: internal/store/activity_reconciliation.go, the check of one account; it calls
--   Reconcile of Activity.Reconcile and the interval loop of History.Schedule.
-- History.Normalize: normalizeHistoryRecord and NormalizeHistoryJob of internal/store/
--   activity_records.go and activity_transfer_cost.go. Prepare makes a raw record an activity, Lookups
--   finds the activity it is known by, Decide says whether it replaces the current version, Writes has
--   the writes (book for a new activity, revise for a known one, settle for what both end with), and
--   the parent is the transaction and the job's loop. It calls Validate of Activity.Validation, and
--   the lease check of History.Jobs.
-- History.Listing: ListActivities of activity_records.go, one page; Follow is a client that sends each
--   page's cursor back.
-- Auth: internal/store/auth.go and internal/auth. Tables has the rows, Members the roles and the
--   retained owner (Join is UpsertOIDCIdentity, Password BootstrapPasswordIdentity, GetPasswordIdentity
--   and InviteWorkspaceMember), Flows the two tables of flows, Sessions the session's rows with
--   createLoginSession, Authenticate, ValidateCSRF and Logout, Login the sign-ins and the brokers'
--   authorizations, Roles is Allows, and Stamp the order of time texts that the database compares.
-- Candles: internal/store/candle_cache.go. Orders: internal/broker/trading.go and the types of
--   broker.go. Orders.Trading: TradingService, of trading.go, order_workflow.go and order_quote.go,
--   over providers that are parameters; Alone has sequences of its calls. Orders.Session: internal/broker/order_session.go.
--
-- Bounds and fuel. Times are natural numbers of seconds or nanoseconds; counters and generations do
-- not wrap. The windows of days take a fuel of one for each day, and each window uses up at least
-- one day. A client that follows cursors takes a fuel of one for each page, and a page that is not the
-- last lists an activity at least. Printing a number takes a fuel of its own size. Parsing accepts the four-digit years.
--
-- Outside the model and so parameters of it: sha256, argon2, JSON and base64, time.Parse, url.Parse, the
-- Unicode tables of lower and upper case, the provider of a sign-in, and the instrument that a leg of
-- an activity is resolved to. Random tokens and new ids are arguments.
--
-- Not modelled: SQL errors and isolation (an operation is atomic), the network, the provider adapters,
-- the HTTP API, the goroutines of the job run, the order session's instrument map, the tables that copy
-- an activity's legs, fill and costs, the coverage of a page, audit events, configuration.
pub mod Prelude
pub mod Text
pub mod Rat
pub mod Date
pub mod Activity
pub mod Candles
pub mod History
pub mod Orders
pub mod Auth
