-- ===== src/Lib.antt =====
-- The loyalty service of a cinema: points, tiers, Gold upgrades, birthday bonuses and achievements,
-- over a PostgreSQL database, with inbound messages from RabbitMQ and an outbox of events.
--
-- The database is one value (Store/Types.antt, from prisma/schema.prisma). A transaction is a
-- function of it that commits a new database or throws and undoes all (Store/Tx.antt). The retry
-- loop `withTransactionRetry` (src/prisma/profile-transaction.ts) runs at most three attempts; what
-- other sessions commit before an attempt, the rows of processed_events that they commit while it
-- runs, and a failure of the database at its commit are inputs of the model, so a theorem about a
-- request holds for all of them. The profile lock orders the transactions of one user, so a
-- transaction is one step.
--
-- Parts, and where the code is:
--   Store          the tables, the statements that the services share, `lockLoyaltyProfile` and the
--                  retry loop (src/prisma/profile-transaction.ts)
--   Dates          the days of UTC (src/loyalty/utils/utc-local-date.util.ts), with the calendar
--                  that the runtime's `Date` keeps
--   Ledger         the invariant of balances and ledger entries
--   Calculator     tiers and multipliers (src/loyalty/loyalty-calculator.service.ts,
--                  src/loyalty/constants/loyalty.constants.ts, src/utils/loyalty.mapper.ts)
--   Points         point commands (src/loyalty/point-command-idempotency.ts), `deductPoints`
--                  (src/loyalty/loyalty.service.ts) and `refundPoints`
--                  (src/loyalty/loyalty-expiration.service.ts)
--   Gold, Purchase, Birthday
--                  `useGoldUpgrade`, `rollbackGoldUpgrade`, `processTicketPurchase`,
--                  `processUserDateOfBirthSet` and the bonuses (src/loyalty/loyalty.service.ts)
--   Reads          balances, full profiles, discounts and pages of transactions
--                  (src/loyalty/loyalty.service.ts, src/loyalty/admin-loyalty.service.ts)
--   Admin          src/loyalty/admin-loyalty.service.ts
--   Expiration     the scheduled jobs (src/loyalty/loyalty-expiration.service.ts,
--                  src/loyalty/processors/loyalty-queue.processor.ts)
--   Achievements   src/achievements: intents and their publication, progress, the input and the
--                  administration of the catalogue, the jobs of the queue, and the mapper
--   Outbox         src/loyalty/outbox-publisher.service.ts: its statements (Outbox.antt) and the
--                  waves of one run (Outbox/Waves.antt)
--   Delivery       src/loyalty/consumers: the statements of rmq-delivery.service.ts and
--                  message-failure.ts (Delivery.antt), the loop of `handle` (Delivery/Handle.antt),
--                  confirmed-rmq-publish.ts and quarantine-replay.service.ts (Delivery/Replay.antt),
--                  user-date-of-birth-set.consumer.ts (Delivery/Consumer.antt) and
--                  ticket-purchased.consumer.ts (Delivery/Purchases.antt)
--   Config         the schema of the environment and what the services take from it (src/config)
--   Service        the requests that write, as one state machine, and the accounts that it
--                  implements (Service/Refinement.antt)
--   Grpc           the methods of src/loyalty/loyalty.controller.ts behind the guard, the schemas and
--                  the filter (src/guards, src/common)
--   Effects        asynchronous code with `try` and `finally`, for the next two
--   Tool           the command that replays a message (src/tools/replay-quarantine.ts)
--   Startup        the start of the process (src/bootstrap, src/main.ts)
--   Examples       the properties at concrete inputs
--
-- Numbers: points, balances and counters are integers with a sign, and a write of a profile or a
-- claim that does not fit a PostgreSQL `integer` throws, as the database does. Amounts of money are
-- in hundredths and multipliers in halves, on which the source's floor is exact. Instants are
-- milliseconds, months count from year 0, ids and uuids are natural numbers, texts are lists of code
-- units.
--
-- Fuel: a scan over the profiles gets two passes more than the cursor of its first pass, since each
-- pass lowers the cursor. A run of the publisher gets as many waves as its bound on waves admits.
-- The loop of a delivery has no bound of its own: it runs over a list of passes, each with what
-- surrounds it, and `unfinished` tells that the list ended first.
--
-- Parameters, for code that is not in the repository: zod's and class-validator's checks of a uuid,
-- the cast of an order id, `addYears`, the runtime's `new Date` on other texts than a day,
-- `JSON.parse` and `JSON.stringify`, the checks of URLs and addresses, the number that a field of an
-- event's metadata denotes, the text of a uuid, the database and the broker around a delivery, a
-- publication or a replay. A job reads its clock once, and so does a pass of a loop.
--
-- Not modelled: the generated Prisma client, the modules of the framework, the schedulers, the
-- listener of tier upgrades, `getUserProgress`, which nothing calls, logs, metrics and descriptions.
pub mod Prelude
pub mod Effects
pub mod Tool
pub mod Startup
pub mod Store
pub mod Ledger
pub mod Dates
pub mod Calculator
pub mod Points
pub mod Gold
pub mod Achievements
pub mod Purchase
pub mod Birthday
pub mod Admin
pub mod Reads
pub mod Expiration
pub mod Outbox
pub mod Delivery
pub mod Config
pub mod Service
pub mod Grpc
pub mod Examples
