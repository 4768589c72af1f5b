-- ===== src/Files.antt =====
-- The files page of the web client: web/src/pages/app/files and web/src/pages/app/FilesPage.tsx.
pub mod Batch
pub mod Selection
pub mod DropZone
pub mod Search
pub mod Page
pub mod Requests
pub mod Visit
pub mod Menu
pub mod Cache
pub mod Matching
pub mod Folders
pub mod List
pub mod Content
pub mod Navigated
pub mod Views
pub mod Drawer
mod Tests
