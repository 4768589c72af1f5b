-- ===== src/Stores.antt =====
-- The page of storage backends: web/src/pages/app/StoresPage.tsx and web/src/pages/app/stores.
pub mod Form
pub mod Quota
pub mod Flow
pub mod Groups
pub mod Partition
pub mod Card
pub mod Gdrive
pub mod Fields
pub mod Visible
pub mod Breakdown
pub mod Page
pub mod Once
mod Tests
