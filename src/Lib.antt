-- ===== src/Lib.antt =====
-- The web client of go-drive: a single-page application on files that lie in several stores, shared
-- by links, in organizations. The development models the state that its pages and stores keep, the
-- requests they make and what they do with the answers; markup and styles are left out.
--
-- Parts, and the files that model them (paths from the root of the repository):
--   Base         tests, lists, objects used as dictionaries, and texts of the language;
--   Api          web/src/lib/api.ts: the request of `api` and `tenantApi`, the envelope of an answer;
--   Auth         web/src/store/auth.ts: user, token and admin flag; `signIn`, `signUp`, `signOut`;
--   Org          web/src/store/org.ts: the organizations, the current one, and its slug in the local
--                storage; Org/Slug the slug that web/src/components/CreateOrgDialog.tsx makes of a
--                name;
--   App          web/src/App.tsx: `AuthLoader` joins both stores, and App/Routes is the route table with
--                `ProtectedRoute`, `OrgGuard` and `AdminGuard` of web/src/components; App/Forms has the
--                forms of web/src/pages/LoginPage.tsx and SignupPage.tsx, App/Entry what these pages
--                show, and App/NewOrg the dialog of
--                CreateOrgDialog.tsx; App/SigningIn is about the refetch of the session that `signIn`
--                awaits;
--   Upload       web/src/lib/upload.ts and web/src/store/upload.ts: a batch is a request with progress
--                events, whose rows stand in one list for all batches; Panel is
--                web/src/components/app/UploadPanel.tsx;
--   Files        web/src/pages/app/FilesPage.tsx and files/: Page (state and handlers), Requests
--                (mutations, dialogs, actions), Batch (`useBatchFileOps`), DropZone, Search (`buildSearchUrl` and
--                the filters), Menu (both menus of an item), Cache (the keys of the queries),
--                Content (queries and what is shown of them), Navigated,
--                Folders (FolderPicker.tsx) and its Rows, List and Views (FileList.tsx), Drawer (FileDetailsDrawer.tsx);
--   Links        web/src/pages/app/LinksPage.tsx and links/: Form, Bodies (`buildCreateBody`,
--                `buildUpdateBody`), Flow (dialogs and mutations), Views (fields, rows, events), Hidden;
--   Stores       web/src/pages/app/StoresPage.tsx and stores/: Form, Flow (dialogs), Groups, Card, Gdrive
--                (connecting a Google Drive store), Fields and Visible (the fields a provider shows),
--                Page (mutations and views), Breakdown (StorageBreakdownCard.tsx);
--   Layout       web/src/components/app: AppLayout.tsx, Header (AppHeader.tsx), Recent (RecentFolders.tsx,
--                StorageUsageSidebar.tsx), Arrivals (the files page at their addresses), Active, Theming;
--   Dashboard    web/src/pages/app/dashboard/, and Stale (which queries are not refreshed);
--   Picker       web/src/components/FilePicker.tsx and web/src/lib/imageCompress.ts: Bounds, Addresses;
--   Preferences  web/src/store/preferences.ts and web/src/lib/useSidebarCollapsed.ts; Notifications is
--                web/src/pages/app/settings/SettingsNotificationsPage.tsx;
--   Format       the three variants of `formatBytes`;
--   Admin        web/src/pages/admin/users.tsx and organizations.tsx: Listing (the search), Users and Orgs
--                (state, requests, actions), Rows (tables), Forms (the browser's validation), Quota,
--                Reach (whom the requests are about), System (system.tsx and
--                settings.tsx), and Frame (web/src/components/admin);
--   OrgPages     web/src/pages/app/settings/SettingsMembersPage.tsx (Members), OrgSettingsPage.tsx,
--                OrgSettingsQuotaCard.tsx, OrgsPage.tsx and OrgSwitcher.tsx (Settings), and what
--                server/internal/handler/org.go permits (Permits);
--   Keys         web/src/pages/app/stores/S3KeysCard.tsx: Secret (how long a secret is shown), Prompt;
--   Preview      web/src/pages/app/FilePreviewPage.tsx: Issued (where addresses come from);
--   Activity     web/src/pages/app/activity/ and ActivityLogPage.tsx: badges, labels, Parts (metadata);
--   Public       web/src/pages/public/: Shared, Tracked, UploadLink, and Gate, `linkPassword` of
--                server/internal/handler/share.go and `openTrackedLink` of trackedlink.go.
-- The pages call Api with the slug of Org's current organization and the token of Auth; a failed
-- load of the session in App clears the user, the token and the list of organizations. The files
-- page hands dropped and chosen files to Upload, and its selection is Batch's. OrgPages deletes with
-- the operation of Org; Admin, OrgPages and Keys make the calls of Api/Calls.
--
-- How the code is rendered: a `useState` cell, a store and an entry of the local storage are fields
-- of one record; a handler is a function on it; what the user does and what the server answers are
-- lists of actions that `acts`, `run` or `changes` applies in order, so that answers may come late.
-- A rejected promise is a value of Outcome. An object is a list of pairs, `undefined` and `null`
-- are `none`. Numbers are natural; a rounded quotient is written out, halves upwards.
--
-- Fuel: Format.Log divides a number by 1024 as long as it can, with the number itself as fuel,
-- which is enough because a division makes it smaller; App.Routes looks at up to four pages;
-- Files.Folders draws a tree with the depth as fuel, enough beyond the deepest expanded row.
--
-- Parameters: the browser's `fetch`, the printing and reading of numbers and dates, JSON, `toLowerCase`
-- and `toUpperCase`, the texts of the browser's errors, which texts are e-mail addresses, the
-- verification of a password, how the query library matches keys, which link the router marks,
-- `encodeURIComponent`, and the drawing of images, with what is asked of them as
-- hypotheses.
--
-- Not modelled: the server, to which every answer is an argument, but for the few checks that
-- Public and OrgPages name; what the query cache holds; floating point (a logarithm and a quotient
-- are exact here, and a quota in the form of a store is a whole number of gigabytes); the
-- components of web/src/components/ui and the translations.
pub mod Base
pub mod Api
pub mod Auth
pub mod Org
pub mod App
pub mod Upload
pub mod Files
pub mod Links
pub mod Stores
pub mod Preferences
pub mod Admin
pub mod Public
pub mod OrgPages
pub mod Keys
pub mod Picker
pub mod Dashboard
pub mod Layout
pub mod Preview
pub mod Activity
pub mod Format
