-- ===== src/Admin.antt =====
-- The administration pages: web/src/pages/admin/users.tsx and organizations.tsx.
-- `toLowerCase` and the reading and printing of numbers are arguments.
pub mod Listing
pub mod Users
pub mod Quota
pub mod Reach
pub mod Orgs
pub mod Rows
pub mod Forms
pub mod System
pub mod Frame
mod Tests
