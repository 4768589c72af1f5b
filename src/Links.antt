-- ===== src/Links.antt =====
-- The page of share, upload and tracked links: web/src/pages/app/LinksPage.tsx and
-- web/src/pages/app/links.
pub mod Form
pub mod Bodies
pub mod Dialog
pub mod Flow
pub mod Views
pub mod Hidden
mod Tests
