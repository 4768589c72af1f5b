-- ===== src/OrgPages.antt =====
-- The pages of one organization: web/src/pages/app/settings/SettingsMembersPage.tsx,
-- web/src/pages/OrgSettingsPage.tsx with OrgSettingsQuotaCard.tsx, OrgsPage.tsx and
-- web/src/components/OrgSwitcher.tsx, and what the server permits of it.
pub mod Members
pub mod Permits
pub mod Settings
mod Tests
