-- ===== src/Client.antt =====
-- The client library: packages/rivetkit/src/client.
pub mod Conn
pub mod Handles
pub mod Http
