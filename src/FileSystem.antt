-- ===== src/FileSystem.antt =====
-- The file-system driver's global state: `FileSystemGlobalState` of
-- packages/rivetkit/src/drivers/file-system/global-state.ts. Files are dictionaries from actor ids
-- to what is written; the temporary file and the rename of a write are one step, which succeeds or
-- fails. Codecs are not modelled: a file holds the decoded value.
mod State
pub mod Entries
pub mod Alarms
pub mod Driver
unfoldable pub use State.*
