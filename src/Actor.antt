-- ===== src/Actor.antt =====
-- The actor instance: packages/rivetkit/src/actor/instance.ts with connection.ts, schedule.ts and
-- protocol/old.ts beside it.
pub mod Schedule
pub mod Index
pub mod Conns
pub mod Actions
pub mod Persist
pub mod Life
pub mod Endpoints
pub mod Stored
pub mod Start
