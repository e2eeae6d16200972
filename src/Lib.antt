-- ===== src/Lib.antt =====
-- Metery: self-hosted metering and entitlements.
--
-- A customer has entitlements to features; an entitlement holds grants of credits; usage events are
-- metered against the grants in usage periods. Plans hand out entitlements and grants to their
-- subscribers, and a worker emits the grants of recurring plans.
--
-- Parts and files:
-- - Ledger (internal/ledger/ledger.go). Ledger/Types is the data, Ledger/Shift is shiftTime,
--   Ledger/Periods is buildPeriods, Ledger/Deduct is the order and the deduction that both balance
--   computations share, Ledger/Balance is CalculateBalance (calculate_balance) cut into its loops,
--   and calculateStatelessBalance. Child modules hold the lemmas.
-- - Store (internal/store/store.go, with the keys, unique indexes and checks of
--   internal/store/migrations/). Store/Rows is the rows, Store/Table is SQL on a list of rows,
--   Store/Db is the database, the actions on it and transactions, Store/Constraints is the indexes.
--   Store/Catalog, Store/Entitlements, Store/Usage, Store/Snapshots, Store/Plans and
--   Store/Subscriptions are the operations, a function each, by the names of the methods.
--   Store/Writes is the interface to the statements that write, one law each for a relation between
--   the tables before and after; Store/Writes/Single and Store/Writes/Actions carry such a relation
--   to every operation, over Store/Db/Keeps, which does so for the parts of an action. Store/Keys,
--   Store/Valid and Store/History are such relations: keys, unique indexes and checks, and what may
--   become of a row. Store/Reads is the operations that read, Store/Listings the listings.
-- - Service (internal/service/). Service/Rpc is the errors of connect, the entries of plans and the
--   shiftTime of the service and the worker; Service/Customers (customer.go), Service/Features
--   (meter.go, feature.go), Service/Plans (plan.go), Service/Subscriptions (subscription.go),
--   Service/Entitlements (entitlement.go) and Service/Grants (grant.go, event.go) are handlers, a
--   function each. Service/Kept takes a relation of Store/Writes through each handler.
-- - Auth (internal/auth/). Auth/Middleware is the interceptor before the API (auth.go), Auth/Session
--   the signed cookie (session.go), Auth/OAuth the sign-in with Google (oauth.go).
-- - Web (internal/web/web.go). Web/Pages is the data of the pages; Web/Catalog, Web/Customers,
--   Web/Plans and Web/Subscriptions are the handlers from the user on, and Web/Console puts
--   requireUser before them (serve), by the routes of cmd/metery/main.go.
-- - Command (cmd/metery/main.go, internal/worker/run_once.go). serve_config is what `serve` reads from
--   the environment, and handle takes a request by its route to the interceptor, the console, the
--   sign-in or the worker. Command/Texts is the lists and flags in variables. Command/Api is the
--   methods of the API that `serve` registers: a call is a constructor with its message, and dispatch
--   its handler. Command/Server is the server as a step relation: a step is a request that has been
--   served, or some rounds of the worker's loop, and Reach is any number of steps.
-- - Worker (internal/worker/recurrence.go). process_recurrence is one pass, process_entry its step for an
--   entry of a plan, and Worker/Loop the loop of RunRecurrenceWorker over what its channels give.
--   Worker/Latest and Worker/Interval say without the sorting and the int64 arithmetic where a cycle
--   is counted from and when it ends.
-- - Prelude, Time and Duration: lists and integers over the native numbers, int64 with its
--   wrap-around, instants in nanoseconds since 0001-01-01 with the calendar of Go's AddDate, and the
--   duration record of github.com/sosodev/duration.
--
-- State is passed explicitly: an action takes a World (the tables, and how often the clock and the
-- ULID generator have been read) to a result and a World. Errors are values. A transaction brings
-- the tables back when it fails; any other action keeps what it has written.
--
-- Fuel: the loops of buildPeriods take fuel, and no answer means that the fuel was spent before the
-- loop ended. A duration that is forward has a bound from which the fuel no longer matters.
--
-- Parameters, for code outside the repository: the sort of Go's sort package (an ordered
-- rearrangement, ties open), the duration parser, JSON of snapshots, plan entries and metadata, the
-- clock, the ULID generator, the database's aggregates other than the count, the HMAC of a session,
-- the random state and Google's answers in a sign-in, and the text of an instant on a page.
--
-- Not modelled: the rendering of templates, the database connection, goose, static files and the
-- shutdown of the command, the coding of the API's messages and their HTTP routes (generated code; a
-- call of the API is its header and its message), foreign keys, and requests that overlap in time: a
-- step of the server ends before the next begins.
-- The goroutine that saves snapshots runs at once. Time zones are left out: every instant is UTC, and
-- a whole number without bounds, where Go's wraps far outside the range of valid timestamps.
pub mod Prelude
pub mod Time
pub mod Duration
pub mod Ledger
pub mod Store
pub mod Service
pub mod Auth
pub mod Worker
pub mod Web
pub mod Command
