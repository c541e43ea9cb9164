-- ===== src/Errors.antt =====
-- The errors of packages/rivetkit/src/actor/errors.ts and `deconstructError` of
-- packages/rivetkit/src/common/utils.ts, which decides what of an error leaves the server. Metadata
-- and what is thrown beside errors of the library are given by their encoding and by the message
-- that `getErrorMessage` reads off them; causes and logging are left out.
mod Classes
mod Deconstruct
pub mod Masking
unfoldable pub use Classes.*
unfoldable pub use Deconstruct.*
