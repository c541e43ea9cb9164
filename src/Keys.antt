-- ===== src/Keys.antt =====
-- Actor keys as strings: packages/rivetkit/src/drivers/engine/keys.ts and
-- packages/cloudflare-workers/src/util.ts.
pub mod Engine
pub mod EngineLaws
pub mod Cloudflare
pub mod CloudflareLaws
pub mod NameLaws
