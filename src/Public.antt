-- ===== src/Public.antt =====
-- The pages behind a link, for visitors without an account: web/src/pages/public/.
-- The message of an error that the program did not make is an argument.
pub mod Shared
pub mod Tracked
pub mod Gate
pub mod UploadLink
mod Tests
