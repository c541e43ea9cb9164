-- ===== src/Lib.antt =====
-- Actors of rivetkit, as far as their own logic goes: how an actor keeps its connections, saves its
-- state, runs its schedule and goes to sleep, how requests are authenticated and reach it, how a
-- client keeps its requests, and how drivers name and store actors.
--
-- The parts and their files, with paths from the root of the repository; `src` below stands for
-- packages/rivetkit/src.
--
-- - Actor: an actor instance, src/actor/instance.ts, in parts. Actor/Life keeps of each
--   connection its status alone; the other parts share no field of the instance.
--   Actor/Conns with Actor/Index is the table of connections with the subscription index
--   (createConn, __removeConn, #addSubscription, #removeSubscription, _broadcast, and the
--   restoring of connections in #initialize), with the liveness check of
--   src/actor/connection.ts. Actor/Persist is the listener for changes and the saves
--   (#setPersist, #savePersistThrottled, #savePersistInner, saveState). Actor/Schedule is
--   scheduleEvent and _onAlarm. Actor/Actions is executeAction and processMessage of
--   src/actor/protocol/old.ts. Actor/Stored is the stored form (#convertToBarePersisted and
--   #convertFromBarePersisted), and Actor/Start is start and #initialize over it, with the hooks of
--   the user as arguments. Actor/Life is the sleep timer, _sleep and _stop. Actor/Endpoints is
--   src/actor/router-endpoints.ts with src/actor/generic-conn-driver.ts: it makes and removes the
--   connections of Actor/Conns.
-- - Manager: the handlers of src/manager/router.ts with src/manager/auth.ts, which authenticate a
--   request, find or create its actor and pass the request on, and the subprotocols in which
--   src/client/http-client-driver.ts writes a query.
-- - InlineSocket: InlineWebSocketAdapter2 of src/common/inline-websocket-adapter2.ts.
-- - Errors: the classes of src/actor/errors.ts and deconstructError of src/common/utils.ts.
--   Serializable: isCborSerializable of the same file.
-- - PromiseQueue: SinglePromiseQueue of src/utils.ts, which the saves of Actor/Persist go through.
-- - Locks: Lock and throttle of src/actor/utils.ts.
-- - Timers: setLongTimeout of src/utils.ts.
-- - Client: Client/Conn is ActorConnRaw of src/client/actor-conn.ts: requests in flight, the queue
--   of messages, the listeners of events. Client/Http is sendHttpRequest of src/client/utils.ts and
--   the requests of src/client/http-client-driver.ts, with what the manager reads of them
--   (Client/Http/Routes), how it answers, handleRouteError of src/common/router.ts among it
--   (Client/Http/Answers), and the two sides put together (Client/Http/Serving). Client/Handles is
--   ClientRaw of src/client/client.ts with ActorHandleRaw of src/client/actor-handle.ts.
-- - Serde: the encodings of messages: src/serde.ts, CachedSerializer and encodeDataToString of
--   src/actor/protocol/serde.ts, parseMessage of src/actor/protocol/old.ts, and #parseMessage of the
--   client's connection.
-- - FileSystem: FileSystemGlobalState of src/drivers/file-system/global-state.ts: the entries, the
--   files and the alarms. FileSystem/Driver is the manager's driver over it,
--   src/drivers/file-system/manager.ts, which fills the interface that Manager takes.
-- - Versioned: src/common/versioned-data.ts, which persisted data and messages go through.
-- - Keys: keys as strings, of src/drivers/engine/keys.ts and packages/cloudflare-workers/src/util.ts.
-- - Base: the names, lemmas and rulesets that the others share. Tests: runs on concrete inputs.
--
-- State is a record, with a field for each field of the source's class that the part reads or
-- writes, and an operation is a function on it under the source's name in snake case. An operation
-- that may throw gives the state back beside its outcome, since what it wrote before stays written.
-- What the source does to its surroundings (messages sent, hooks called, saves asked for) is a list
-- that the state keeps. An asynchronous function is cut where it awaits: what follows the `await` is
-- an operation of its own, and a step relation lets the operations follow each other in any order.
-- Identifiers, names and error codes are numbers; strings whose characters matter are lists of code
-- units; encoded values are lists of numbers.
--
-- What comes from elsewhere is an argument: the clock, random identifiers, whether a write, a read,
-- a send or a start succeeds, what a hook or an action of the user does, and the codecs.
--
-- Loops are structural recursion. The loop of `deserialize` runs on the number of versions between
-- the data's and the current one, which is how often the source's loop runs. A long timeout fires
-- `rounds` timers before its last one.
--
-- The manager's driver is an interface, a record of operations with laws on the actors that exist;
-- JSON, its schemas and the encoding of URI components are arguments too.
--
-- Not modelled: the proxies that turn properties of a handle into actions, abort signals, the set-up
-- of the routes, the inspector, logging, the generated codecs, the drivers for the engine and for Durable
-- Objects apart from their keys, and the bindings to other frameworks. In FileSystem the loads and
-- starts of one actor do not overlap. The listeners of an in-process socket do not call it back,
-- and the handlers in its `on` properties are left out. The requests of the manager are the six that a
-- client makes for an actor: universalActorProxy, which the inspector's route mounts behind its own
-- check and which asks no onAuth, is not among them. A connection subscribes only while it is open.
-- Of the hooks of a start, the state that they leave and the events that they schedule are modelled.
-- Formats are taken to read back what they wrote in CBOR and BARE alone, as JSON loses bytes.
pub mod Base
pub mod Keys
pub mod Locks
pub mod Versioned
pub mod Timers
pub mod PromiseQueue
pub mod Actor
pub mod Client
pub mod InlineSocket
pub mod Manager
pub mod FileSystem
pub mod Errors
pub mod Serde
pub mod Serializable
pub mod Tests
