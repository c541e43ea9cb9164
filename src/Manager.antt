-- ===== src/Manager.antt =====
-- The router of the manager: the functions behind its routes in
-- packages/rivetkit/src/manager/router.ts, with manager/auth.ts and manager/protocol/query.ts
-- beside it, up to the request that they pass on to an actor.
mod Query
mod Router
pub mod Subprotocols
pub mod Requests
pub mod Authorizing
pub mod Forwarding
unfoldable pub use Query.*
unfoldable pub use Router.*
