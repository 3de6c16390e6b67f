-- ===== src/Lib.antt =====
-- The event booking system: a booking service, an event service and a notification service that
-- exchange messages over Kafka (`packages/messaging`, `packages/contracts`). A user books seats of an
-- event: the booking service writes a PENDING booking and a reserve-seats message; the event service
-- takes the seats and answers with seats-reserved or seat-reservation-failed; the booking service
-- settles the booking and tells the notification service. Each service writes the messages that it
-- sends into an outbox table in the transaction that causes them, and a dispatcher publishes them.
-- Messages may come again, late and in any order.
--
-- What the files model:
--   Common     names of the libraries that are shared, Boolean tests, lists, and `Outcome`, the result
--              of an asynchronous call, with `transaction`, which undoes what a body that throws wrote
--   Sql        the tables of PostgreSQL behind Prisma, which are no code of the repository: a record of
--              operations with their documented behaviour. `Sql.ListTables` is a value of it
--   Contracts  packages/contracts/src/index.ts: the messages; `Contracts.Schemas` is the part that
--              parses them, on the values of `Contracts.Json`
--   Errors     what is thrown, and services/*/src/middleware/error-handler.ts
--   Outbox     the outbox row and its three statements (claimOutboxMessages, markOutboxPublished,
--              recordOutboxFailure); `Outbox.Dispatch` is booking-outbox.dispatcher.ts. `Claims`,
--              `Attempts` and `Stuck` are about the statements in any order
--   Booking    services/booking-service: `Booking.Repository` is booking.repository.ts with one
--              function for each method; `Booking.Service` is booking.service.ts and
--              `Booking.Consumers` seats-reserved.consumer.ts, `Booking.Messaging` the subscriptions
--              of messaging.bootstrap.ts, `Booking.App` the controller, schemas, routes and app.ts.
--              The other children hold the proofs: `Confirm`, `Fail`, `Cancel` and `Idempotency`
--              about one operation each, `Lifecycle` about all of them
--   Event      services/event-service: `Event.Inventory.Repository` is inventory.repository.ts,
--              `Event.Inventory.Service` inventory.service.ts, `Event.Events` event.repository.ts and
--              event.service.ts, `Event.Cache` event-cache.ts, `Event.RedisCache` redis.client.ts,
--              `Event.RateLimiter` rate-limiter.ts,
--              `Event.Dispatcher` event-outbox.dispatcher.ts, `Event.Messaging` the subscriptions
--              and consumers, `Event.App` the controller, schemas, routes and app.ts
--   User       services/user-service: repository and service; `User.App` is its HTTP side
--   Http       what the apps share: the middleware, utils/response.ts, pagination.ts, the health
--              routes with `readinessHandler` of packages/observability, and routers. `Http.Rules`
--              goes from what each handler does to what an app does
--   Notification  services/notification-service: both sinks, the handlers, the subscriptions
--              and app.ts
--   Messaging  packages/messaging/src/index.ts: `processKafkaRecord`, and `start` of the runner;
--              `Messaging.Kafka` is the rest of that file
--
-- How the source is read: a database is a record of tables that is passed along; a method of one
-- transaction is one step; what a call throws is a value. Instants are numbers of milliseconds, and
-- time stands still within a call. A UUID is a number; the text of one that a client may have sent is
-- `UuidText`, a number with a spelling, of which 0 is lower case, because the request schemas let
-- upper case pass and the code compares texts in some places and database values in others. A
-- message id is compared as a text in the booking and the event service, so it is the number of its
-- text; in the notification service's tables, whose columns are uuids, the numbers are those of texts
-- in lower case, as `randomUUID` makes them. An idempotency key is a number, 0 for the empty text; so
-- is an e-mail address. The identifiers that `randomUUID` makes are arguments. Kafka is `Publisher`, a function of its own state, for the services, and `Broker` below
-- `Messaging.Kafka`; the cache of events is `EventCache`, the commands of Redis that the limiter uses
-- are `Redis`. Express is `Express`, which reads bodies and matches paths; zod is `Zod` for requests
-- and `Formats` for messages, so that an issue's text is what zod says.
-- Quantities and seats are natural numbers, where the schemas or the guards make them so; where a
-- guard looks at a JavaScript number, it is `Number`. Every loop is structural recursion on its list;
-- `connect_from` recurses on the attempts that are left, ten as in the source, so that no fuel can run
-- out.
--
-- Not modelled: the start and shutdown of the processes and their
-- configuration, logs and metrics, helmet and cors, the headers of the rate limiter in the apps'
-- answers, and errors of the database other than a broken unique constraint and, where a call waits
-- for the dispatcher (`drain` of `Booking.Service`), a claim that is refused.
pub mod Common
pub mod Sql
pub mod Contracts
pub mod Errors
pub mod Outbox
pub mod Booking
pub mod Event
pub mod Http
pub mod User
pub mod Notification
pub mod Messaging
