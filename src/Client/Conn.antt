-- ===== src/Client/Conn.antt =====
-- A client's connection to an actor: `ActorConnRaw` of packages/rivetkit/src/client/actor-conn.ts.
-- The transport is the environment's: whether it is open is part of the state, and whether a send
-- throws is an argument. What the connection hands to others is kept in order: the messages that
-- the transport took, the settled promises of actions, the calls of listeners and of error
-- handlers.
mod State
pub mod Connecting
pub mod Requests
pub mod Reach
pub mod Queue
pub mod Events
unfoldable pub use State.*
