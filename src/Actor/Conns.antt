-- ===== src/Actor/Conns.antt =====
-- The connections of an actor: `Conn` of packages/rivetkit/src/actor/connection.ts, and
-- `createConn`, `__removeConn`, `#addSubscription`, `#removeSubscription`, `_broadcast`,
-- `#assertReady`, `#checkConnectionsLiveness` and the restored connections of `#initialize` in
-- packages/rivetkit/src/actor/instance.ts.
-- A `Conn` is an object that several maps refer to, so the objects stand on a heap by their id, and
-- the maps hold ids. Calls of other parts (saving, the sleep timer, drivers, the user's hooks) are
-- kept in order as effects.
mod State
pub mod Invariant
pub mod Lifecycle
pub mod Opening
pub mod Restoring
pub mod Broadcast
pub mod Liveness
unfoldable pub use State.*
