-- ===== src/Lib.antt =====
-- The server of this repository: a NestJS backend with accounts, sessions, feature flags, an audit
-- trail, queues, uploads, scheduled tasks and a graceful shutdown.
--
-- A request passes the middlewares, then the guards, then the interceptors, and reaches a
-- controller, which calls a service; a service works on tables of the database and on the cache and
-- emits events; what it throws is answered by the exception filter. The parts:
--
-- - Base: Booleans, lists, and `Exec`, the methods that change a state and may throw. What was
--   written before an exception stays written.
-- - Store: the interfaces of a table with a unique key (a Prisma model) and of a cache
--   (cache-manager), with the laws that the code relies on; Store/Assoc fills them by association
--   lists. Any call may fail without a write, and a cache may lose an entry at any time.
-- - Users, Events, Json: the accounts of prisma/schema.prisma with the interfaces of their table,
--   of argon2 and of the cipher of phone numbers; the events; JSON values.
-- - Auth: src/domains/auth. `login`, `refresh`, `logout` and `validate_user` are the methods of
--   application/auth.service.ts, the actions above them those of infrastructure/auth.repository.ts;
--   Auth/Expiry is the expiration that `saveRefreshToken` parses, Auth/Strategy the `validate` of
--   infrastructure/strategies, Auth/Race several refreshes with one token as a step relation.
-- - User: src/domains/user, with Pagination for the paging of src/shared/interfaces.
-- - FeatureFlag: src/domains/feature-flag; Ports has the repository and the cache, Guard the guard,
--   Routes the controller behind the guards of the server, Refinement a plain map of switches, which
--   is what the service promises.
-- - Idempotency, Guards, Audit and Filter: src/core, by middlewares, guards, interceptors and
--   filters. Guards/Session puts the strategy behind the guards. Transform: the envelope of
--   src/core/interceptors/transform.interceptor.ts. Access: the decorators of
--   src/domains/user/presentation/user.controller.ts, Access/Handlers its methods behind the guards,
--   and Access/Endpoints the decorators of the controllers of authentication, audit logs, uploads
--   and streaming; Access/Sessions and Access/Logs have the handlers of the first two. Metrics and
--   Logging: the other two interceptors.
-- - Validation: the decorators of the DTOs in src/domains/*/presentation/dto, with the validation
--   pipe as a parameter; Validation/Queries has the listing of users behind it.
-- - Server: src/main.ts and src/core/core.module.ts, which put these together: a request from the
--   idempotency middleware to the response, over any handler; Server/Start has what `bootstrap` sets
--   up.
-- - AuditLogs: src/infra/audit, the listing and the lookups of application/audit.service.ts.
-- - Schedule: src/infra/schedule, the lock of decorators/distributed-cron.decorator.ts and
--   tasks/cleanup.task.ts, and tasks/health-check.task.ts in Schedule/Health; Schedule/Cluster has
--   several instances as a step relation.
-- - Shutdown: src/infra/shutdown/shutdown.service.ts. Health, Cache, Prisma: the services of
--   src/infra/health, src/infra/cache and src/infra/prisma. Seed: prisma/seed.ts.
-- - Crypto: src/shared/crypto/crypto.service.ts; Crypto/Framing makes of it the cipher that Users
--   asks for, User/Phone puts it under the user service, and Accounts puts the user service beside
--   the auth service. Mask: src/shared/utils/mask.util.ts.
-- - Queue: src/infra/queue and src/infra/events/handlers, which turn the events into jobs.
-- - Upload: src/infra/upload. Streaming: src/infra/streaming, with the numbers of a range in
--   Streaming/Numbers and the texts of its header in Streaming/Texts. Env: src/config; Env/Settings
--   has its settings and the throttler's.
-- - Websocket: src/infra/websocket, the gateway and its guard; Websocket/Sessions has the life of the
--   sockets as a step relation, Websocket/Interleaved the same with the guard's await split off,
--   Websocket/Handshake the token of a socket.
--
-- Prisma, cache-manager, argon2, the JWT library, passport, the scheduler, socket.io, the event
-- emitter, Bull, multer, zod,
-- class-validator and node's crypto, path and fs are parameters. Their laws are those of
-- the interfaces, and the tests fill them by concrete functions. The clock stands still within a
-- request. Dates are milliseconds in UTC, up to 8.64e15, the last that a `Date` holds. Pages, limits
-- and the numbers of JSON are natural, and those of a range are integers, exact below 2^53. Texts
-- are sequences of code points; where the code counts UTF-16 units or bytes, Crypto does too, and
-- in Mask and Logging a text is the sequence of its UTF-16 units. URLs are lists of code points, and
-- an audited body is an object. No function runs on fuel: all
-- recursion is structural.
--
-- Not modelled: the answers of the metrics endpoints and the declarations of the metrics, the stream
-- of the time, the hooks and transactions of the Prisma service, which are single calls of the client,
-- the page of the API documentation, and the options of the logger. An object of a request or of a
-- handler has no property that is `undefined`, and the service's DTOs of a creation and of a listing
-- have no `null`, which `@IsOptional()` lets through.
pub mod Base
pub mod Store
pub mod FeatureFlag
pub mod Users
pub mod Websocket
pub mod Events
pub mod Auth
pub mod Crypto
pub mod Logging
pub mod Mask
pub mod Metrics
pub mod Pagination
pub mod User
pub mod Validation
pub mod Idempotency
pub mod Guards
pub mod Json
pub mod Accounts
pub mod Audit
pub mod AuditLogs
pub mod Filter
pub mod Access
pub mod Queue
pub mod Upload
pub mod Transform
pub mod Env
pub mod Streaming
pub mod Schedule
pub mod Cache
pub mod Health
pub mod Prisma
pub mod Seed
pub mod Server
pub mod Shutdown
