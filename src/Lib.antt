-- ===== src/Lib.antt =====
-- The domain core of CellixJs, and of the Owner Community application built on it.
--
-- The program is a set of aggregates (tickets, members, invitations) that guard their own changes:
-- a caller acts with a passport, an aggregate asks the visa that the passport issues for it, value
-- objects check what is written, and the aggregate records events. A repository saves aggregates
-- inside a transaction, hands their domain events to a bus before it writes, and a unit of work
-- sends their integration events after the commit.
--
-- Files, and the code that each is about (all of packages/ocom/domain/src/domain, unless named):
--   Base            truth values, texts, lists, and methods that change an object and may throw: an
--                   exception carries the object as it was left, since nothing is rolled back
--   ValueObjects    the package @lucaspaganini/value-objects, as an interface with laws
--   Seedwork        packages/cellix/domain-seedwork: aggregate-root.ts and domain-event.ts
--   Iam             iam and contexts/*/*.domain-permissions.ts: passports and visas
--   Case            contexts/case: Case/ServiceTicket and Case/ViolationTicket
--   Community       contexts/community/member: Community/Invitation with Community/Email,
--                   Community/Members, Community/Profile and Community/Search
--   UnitOfWork      packages/cellix/mongoose-seedwork: mongo-repository.ts and mongo-unit-of-work.ts
--   Management      packages/ocom/application-services/src/contexts/community/member:
--                   member-management.ts, on the repositories of packages/ocom/persistence
--   Bootstrap       apps/api/src/cellix.ts
--   Queue           packages/cellix/service-queue-storage/src: the service, a queue's producer and
--                   consumer, logging-fields.ts and validation.ts
--   EventBus        packages/cellix/event-bus-seedwork-node/src/in-proc-event-bus.ts, and with
--                   EventBus/Node node-event-bus.ts
--   TtlStore        packages/cellix/server-oauth2-mock-seedwork/src/ttl-store.ts
--   Worktree        packages/cellix/local-dev/src/worktree/ports.ts
--   Samples         the concrete values that the modules named Tests use
--
-- A method keeps its name in snake case: requestAddStatusTransition is
-- request_add_status_transition, and the setter of `title` is set_title. Each aggregate is a record
-- of its props, its flag isNew and the fields of AggregateRoot; a method is a function from it to an
-- outcome. An aggregate's Command lists the calls a client can make, `perform` makes one, and `run`
-- makes a list of them, each with the passport of its caller, whether they return or throw.
-- References to other objects are given by id, except in UnitOfWork, where objects are shared and
-- stand in a store.
--
-- Management works on the documents of the collection: a callback is a function on a Session that
-- may throw. Its reads see the collection as it is committed, since getById names no session; its
-- writes stay in the session. `transaction` runs it as the unit of work does for a driver's
-- decisions: a commit makes the session's documents the collection, and an attempt that is run
-- again or given up is aborted, with what it has written. Of a write, the whole document is
-- modelled, so that two writes of one document in a session leave the later. The users, the roles
-- and the names of users are read through a record Host. Bootstrap has one call for each method of
-- the class, and one for each hook, which Azure Functions calls; services are named by object and
-- by class; the chains that the interfaces allow are a family of data types. On the Node event bus,
-- handlers run on by themselves, and a step relation lets them come between the calls of a
-- broadcast.
--
-- Parameters, for code that the repository does not hold: the value objects, with what their
-- constructors accept (ValueObjectLaws), the pattern of NullableEmail and the array object of
-- Interests; toUpperCase, of which only KeepsStatuses is used; toLowerCase and includes in the
-- search; the clock, whose readings are arguments in milliseconds, one for each time the code
-- reads it; a new item of an array, as the database adapter makes it; the database, what the
-- handlers on the buses do, and the database driver's decisions to commit, to run a callback again
-- or to give up; the texts that JSON.stringify makes; what services do when they are started and
-- stopped, and which of several failures comes first; JSON, base64, and the client and the logger
-- of the queue service, which may fail.
--
-- A call that the code does not wait for is made at the same place as one that it waits for, since
-- it begins before the code goes on. A 32-bit integer is a residue modulo 2 ^ 32. All recursion is
-- structural, on lists and on the driver's decisions, so no fuel is used.
--
-- Not modelled: the finance details of violation tickets beyond the service fee, revision
-- requests, the fields of a member's custom views, loading and saving in updateMemberProfile, the
-- invitations of member-management.ts, the other aggregates and application services,
-- registerQueues and the calls that the queue service passes on, the tracing and the payloads of
-- the Node event bus, the development tools, and the glue to GraphQL, mongoose, Azure and React,
-- which calls third-party frameworks and has little logic.
pub mod Base
pub mod ValueObjects
pub mod Seedwork
pub mod Iam
pub mod Samples
pub mod Case
pub mod Community
pub mod UnitOfWork
pub mod Management
pub mod Bootstrap
pub mod Queue
pub mod TtlStore
pub mod Worktree
pub mod EventBus
