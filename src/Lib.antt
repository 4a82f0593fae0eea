-- ===== src/Lib.antt =====
-- The server of a charging station: users submit charging requests, a dispatcher assigns the orders to
-- fast and slow piles, charges are started, completed, cancelled or aborted by faults, and billed by a
-- time-of-day tariff. The server keeps its state in a database; each method of a service is one action
-- on it. Paths are from apps/server on, those of the client from the root.
--
-- What models what:
--   Schema         prisma/schema.prisma and src/common/enums.ts: tables as lists of rows, `findUnique`,
--                  `update`, and the `where` and `orderBy` clauses that services share
--   Station        the database with the effects sent so far and the variables of the clock, actions with exceptions, and what a call
--                  gets from outside (`Env`): both clocks, the time zone, the configuration, the answer
--                  of the scheduler service and of Redis to a request for a lock
--   Float          JavaScript's numbers as an abstract type with operations; an instance over ℕ for tests
--   Progress       src/common/charging.ts and the elapsed times of src/common/clock.ts
--   QueueCache     src/modules/queue/queue-cache.service.ts: refreshMode, refreshPile, refreshAll
--   Billing        src/modules/billing/billing.service.ts: Tariff (priceAt, nextRuleBoundary), Fee
--                  (calculateChargeFee), Amounts, Close (closeAndBill, detailByOrder, detailById)
--   QueueNumber    the text and the arithmetic of queue numbers
--   Dispatch       src/modules/dispatch/dispatch.service.ts: Strategy (the local strategies), Queues (its
--                  queries), Assign (applyAssignments), Complete (autoCompleteCharging, wakeIdlePiles),
--                  Trigger (triggerBasicAll and the other triggers)
--   Charging       src/modules/charging/charging.service.ts: Submit (submitRequest), Status
--                  (queueStatus), Orders (modifyMode, modifyAmount, cancel, start, stop), History
--                  (listOrders)
--   Piles          src/modules/pile/pile.service.ts: Power (powerOn, powerOff), Fault (reportFault),
--                  Control (recover, control), Views (list, queue)
--   Clock          src/common/clock.ts with the changes of speed of
--                  src/modules/admin/admin-dashboard.controller.ts; its variables are a part of `World`
--   Security       src/common/security.ts: Passwords (hashPassword, verifyPassword), Tokens (signToken,
--                  verifyToken), which only a test uses
--   Auth           src/modules/auth/auth.service.ts: register, login, adminLogin
--   Http           the controllers of src/modules, the guards of src/modules/auth/guards and their order in
--                  src/main.ts: Guards, Routes, and theorems on who reaches what (Access, Owners, Anonymous)
--                  and on sequences of requests (Sequences)
--   Seed           prisma/seed.ts
--   Client         apps/client/src/router/index.ts: Router
--   Reports        src/modules/report/report.service.ts (Range, Pile) and
--                  src/modules/admin/admin-dashboard.service.ts (Dashboard)
--   Redis          src/redis/redis.service.ts: its methods over any library that answers or throws
--   Realtime       src/realtime/realtime.service.ts: Clients (attach, broadcast), Frame (encodeTextFrame)
--   Lifecycle      closeAndBill from rows to rows (Billed); the invariant of the tables and the forward
--                  order of the statuses, for the writes, the
--                  services' methods (Moves states the rules for the text of an action) and, in Calls,
--                  for any sequence of calls
--   Prelude        lists with Boolean tests, rows with keys, sorting
--   Examples       a small station and the theorems at inputs that meet their hypotheses
--
-- Choices. A call runs as a whole, at one reading of each clock; calls follow one another in any order.
-- A row's key is a number, in the order in which the database compares the texts, and fresh keys are
-- greater than all others. A queue number is the list of its character codes. The zone has no daylight
-- saving. What was written before an exception stays written, and a `$transaction` is one write. The
-- answer of the scheduler service and the locks are arbitrary. A missing configuration value is `none`.
-- A result that repeats rows of the database is modelled by what the callers read of it. The loop of
-- calculateChargeFee runs on as much fuel as the charge has milliseconds, since each round moves the
-- cursor; the digits of a number are printed on fuel of the number's size.
--
-- The library of Redis, bcrypt, the signing and the verification of tokens and the database's comparison
-- of user names are parameters, and so are vue-router's matching of paths and its passing on of a query;
-- theorems name what they assume of them. Aliases of a route are one route. The readings of the virtual
-- clock that a call gets are arbitrary, whatever speed the clock was set to before. Queue numbers are
-- whole numbers of any size, as in JavaScript below 2^53. A navigation of the client runs on fuel for
-- three pages, which is enough. A socket is a number. The range of a report is computed in the server's
-- zone from the real clock.
--
-- Not modelled: the framework's routing and the shapes of bodies, the translation of exceptions to status
-- codes, the scheduler service itself, the views of the web client and scripts.
pub mod Prelude
pub mod Float
pub mod Schema
pub mod Station
pub mod Security
pub mod Progress
pub mod Clock
pub mod QueueCache
pub mod QueueNumber
pub mod Auth
pub mod Billing
pub mod Dispatch
pub mod Charging
pub mod Piles
pub mod Realtime
pub mod Redis
pub mod Reports
pub mod Http
pub mod Seed
pub mod Client
pub mod Lifecycle
pub mod Examples
