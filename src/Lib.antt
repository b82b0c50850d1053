-- ===== src/Lib.antt =====
-- Verification of the backend of a field service management system: a server in TypeScript whose
-- services keep their state in a PostgreSQL database, which they reach through the Prisma client.
--
-- The program. A request is authenticated and authorized by the HTTP layer (src/http), validated
-- (the dto/ directory of a module) and handed to a function of a service (src/modules). A service
-- reads and writes tables through the client, throws an AppError to refuse a request, and lets the
-- client's errors through. Jobs (src/jobs) run beside the requests on the same tables.
--
-- How it is modelled.
--   Prelude    the shared names of the libraries, tests on numbers and texts, lemmas on lists of rows:
--              writes (Lists), distinct keys (Keys), counting (Counting), `trim` and `split` (Texts),
--              texts without repetitions (Distinct).
--   Errors     src/shared/errors.ts, the client's errors, and the monad of the services: a function
--              takes the store and returns a result with the store after it. What was written before
--              an exception stays written, except inside `transaction`, which is `$transaction`.
--   Prisma     the client, which is not part of the repository, is a record of operations and laws
--              (Prisma.Client): find_first is findFirst and findUnique, find_many is findMany, and so
--              on. A `where` clause is a test on rows, an `orderBy` clause a comparison. `create` and
--              `update` fail with P2002 where a unique constraint would be violated; the constraints
--              are those of prisma/schema.prisma. An `update` is given the constraints among the
--              columns that it writes; `createMany`, `count`, `upsert` and pages are made of these (Derived).
--              The theorems hold for every such client.
--   Memory     a client whose tables are lists; it meets the laws, and the examples run on it.
--   Invoices   src/modules/invoices/invoices.service.ts: tables and inputs (Types), errors, transitions
--              and new rows (Rules), reading and creating (Service), all other operations (Edit). The
--              requests are the steps of a relation on stores (Requests). What operations do to the
--              table of invoices: Creation, Effects, Status; creating one as a whole: Billable, Drafted;
--              over many requests: Invariant, History.
--   Scheduling src/modules/scheduling: statuses.service.ts (Statuses), bookings.service.ts (Bookings),
--              routes.service.ts (Routes), on the tables of Types. Defaults, StatusChange, Reorder and
--              Stops hold the proofs.
--   SyncJobs   src/jobs/syncJobs.ts: the job queue (Types) and one run of the worker (Worker). What
--              one round of its loop writes (Rounds), and what a run keeps (Queue, Attempts).
--   Auth       src/modules/auth/auth.service.ts, src/shared/jwt.ts, src/shared/tokenHash.ts: tables
--              (Types), tokens (Tokens), login and lockout (Lockout), sessions (Sessions), tokens for
--              email and password (OneTime, Issue), registration (Register). Proofs: Guessing
--              and BruteForce on the lockout, Rotation on refresh tokens, Reset and Live on password
--              resets, Registered on registration.
--   ServiceContracts
--              src/modules/service-contracts/recurrence.service.ts: rules and the loop that collects
--              their dates (Recurrence), and what it collects (Occurrences).
--              serviceContracts.service.ts there: tables and inputs (Types), reading and creating
--              (Service), changing, deleting and storing dates (Edit). Proofs: Templates, Creation,
--              Materialize.
--   WorkOrders src/modules/work-orders/workOrders.service.ts: tables and inputs (Types), the filters of
--              a list (Filters), lists and details (Listing), incidents, notes and line items (Service),
--              tasks and their readiness (Tasks). Proofs: Parsing and Paging on lists, Readiness,
--              Stamps and TaskLife on tasks.
--   Access     src/modules/rbac and src/http/middleware: tables and requests (Types), roles and
--              permissions (Rbac), the middleware before a route (Middleware), the answer to an error
--              (Handler). Proofs: Permissions, Assigned, Guarded on a route with its middleware, Hidden
--              on answers.
--   Organizations
--              src/modules/organizations/organizations.service.ts: slugs (Slug), lists and creation with
--              its three attempts (Service), on the tables of Access. Proofs: SlugForm, Kept and Owned.
--   Geo        src/modules/geo-tracking/geoTracking.service.ts (Types, Tracking) and
--              src/jobs/geoPingCleanup.ts (Cleanup). Proofs: Ingest on batches of pings, Retention on the
--              cleanup. The type of floating-point numbers is a parameter.
--   Examples   concrete runs.
--
-- Choices. Identifiers are texts, times are numbers of milliseconds. What a function takes from the
-- clock and from generated identifiers is an argument (Env); one reading of the clock stands for all
-- readings during a request. A loop over a list is recursion on it; the loops that collect dates and
-- that try to make a token or an organization recurse on the number of rounds that the source
-- allows. A request runs by itself: statements of other requests between those of one request are
-- not modelled. A record of a table has the columns that the component reads or writes; `updatedAt`,
-- which the client keeps by itself, is left out. jsonwebtoken, argon2, the hash function and the
-- treatment of letters in an email address are parameters (Auth.Tokens), as are rrule and luxon
-- (ServiceContracts.Recurrence), the comparison of stored JSON and the texts of the client's errors
-- (SyncJobs.Worker), the verification of an access token (Access.Middleware), the lower case of a
-- name (Organizations.Slug), and the runtime's functions on dates (WorkOrders.Filters). The order in
-- which a list of work orders returns those of the same start is a parameter of each of its queries
-- (WorkOrders.Listing). Logging is left out.
--
-- Not modelled: routing, controllers, validation, metrics, configuration, email, rate limits and the
-- OpenAPI document; the timers of the jobs and the cleanup of sessions; work templates, crews, skills,
-- technicians, resources, customers, locations and the QuickBooks integration.
pub mod Prelude
pub mod Errors
pub mod Prisma
pub mod Memory
pub mod Invoices
pub mod Scheduling
pub mod SyncJobs
pub mod Auth
pub mod Examples
pub mod ServiceContracts
pub mod Geo
pub mod WorkOrders
pub mod Access
pub mod Organizations
