-- ===== src/Lib.antt =====
-- The core of tern-scheduler (packages/core/src/lib): a library by which several nodes share a
-- database of scheduled jobs and of their tasks, each job with a lease as its lock.
--
-- The parts. A node calls the controller (controller/*.ts). The controller runs an operation while
-- it holds the lease of a scheduled job; it reads and writes rows through the data store
-- (datastore/db-impl.ts), asks pluggable strategies (strategies/*.ts) when tasks follow, whether
-- they are skipped or retried, asks the job execution framework to start a job, and emits messages.
-- The data store turns each of its methods into conditional calls of two tables, which
-- datastore/memory.ts keeps in lists. A lease is two columns of the job's row, `leaseOwner` and
-- `leaseExpires`, and the column `updateState`, null exactly when no one updates the job.
--
-- The files:
--   Prelude: shared names, tests on texts, lists and integers over the native numbers.
--   Model: the rows (model/schedule.ts, model/task.ts) and the values of columns.
--   Errors: the errors and promise chains. `Exec S A` is a chain that answers with an A or is
--     rejected, over a state S that keeps what was written before the rejection.
--   Db: conditions and tables (datastore/db-api.ts, datastore/memory.ts); Db/MemTable has the laws of
--     a table as a finite map from keys to rows.
--   Store: the data store (datastore/db-impl.ts). Store/Jobs has the methods on scheduled jobs,
--     Store/Tasks those on tasks, Store/Pages the paged queries, Store/Polling the polls; a method
--     has the source's name in lower case with underscores. Store/Calls takes the calls of all
--     nodes in the order in which the store runs them, a list of steps from one database to the
--     next, where a step is the table call by which a method changes the tables.
--   Strategies: the registry, and what the controller asks of strategies.
--   Controller: controller/schedule.ts (Controller/Schedule), combined.ts (Controller/Combined and
--     Controller/Running) and repair.ts (Controller/Repair) over the `World` of Controller/World: the
--     database, the events emitted, and counters of the calls that give fresh values. The modules
--     below each of them follow one operation from its lease to its end.
--   Cron: cron schedules (strategies/task-creation/cron). Cron/Text and Cron/Expression read the text
--     of an expression (expression.ts); Cron/Calendar has the local fields of Date objects and their
--     setters, with internal/time-util; Cron/Next has the search for the time at which a schedule
--     fires next (next.ts), and below it what its loops find; Cron/Strategy has the
--     strategy that joins the two (strategy.ts, index.ts), and the one-shot strategy (once.ts).
--   Wire: what runs in the background of a node: the polling loop (strategies/poll.ts) and, as a
--     relation between states, the timers of class PollingCallback (basics.ts); Wire/Events has the
--     polls and the listeners of wire/*.ts.
--   Sql: the where clauses that packages/datastore-sql makes of conditions, over a record of what
--     Sequelize and the database do with them.
--   Examples: one store, configuration and run for each of the results.
--
-- Conventions. Dates are integer milliseconds; adding seconds adds milliseconds, as in a time zone
-- with a fixed offset. A call of a table is one atomic step, as memory.ts runs it. Calls of other
-- nodes come between the steps of Store/Calls; a single method of the store is followed without
-- them, and so is an operation of the controller, but for what `wait` and `start_job` do to the
-- world. A function that may throw before it returns a promise answers with a `Result` of a chain.
-- A page key is a number or NaN. `repairState` holds an update state or null, the only values that
-- the store writes. Two Date objects are never strictly equal. What the repository does not contain
-- is an argument: the framework's `start_job`, the clock, the makers of keys and of lease owners,
-- the registered strategies, and `wait`, which is what all else does to the world before a retry;
-- the callback that the configuration registers for a retry is taken to fire. A rejection's reason
-- counts as true. memory.ts hands out its own row objects, which later updates change; the model
-- hands out their values. The code reads of such a row afterwards only its key, its schedule and
-- columns that no update in between writes, so that just what strategies and listeners are shown
-- can differ.
-- Dates of a cron schedule are the local fields of a zone without daylight saving, with years from
-- 100 on and with natural numbers in the lists; a date made of the first element of an empty list is
-- invalid. The two loops of nextCronTime run on fuel: two rounds in a month, since a third begins as
-- the second did, and a round for each month up to the farthest year. The replacement of the ranges
-- in an expression runs on one round more than the text has dashes. The other loops of the modelled
-- code run over lists.
-- The texts of expressions are lists of character codes, and the numbers that they spell are exact.
-- `JSON.parse` of a stored definition, with the test of its value, is an argument. A listener runs to
-- its end before the next event of a poll is emitted. A timer may run out at any time after its
-- registration. A callback may register others before it returns or throws.
--
-- Not modelled: the configuration (basics.ts but for class PollingCallback), logging, random
-- identifiers, the tables of the SQL store, whose calls are run by a library that is not in the
-- repository, and the packages without code.
pub mod Prelude
pub mod Model
pub mod Errors
pub mod Db
pub mod Store
pub mod Strategies
pub mod Controller
pub mod Cron
pub mod Wire
pub mod Sql
pub mod Examples
