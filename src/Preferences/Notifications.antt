-- ===== src/Preferences/Notifications.antt =====
-- The switches of web/src/pages/app/settings/SettingsNotificationsPage.tsx.
use go_drive.Base.{
  String, Bool, true, false, Option, some, List, [], ◌∷◌, map, ◌≡◌, refl, if◌then◌else◌,
}
use go_drive.Preferences.{
  Prefs, PrefKey, share_activity_key, downloads_key, new_members_key, storage_key, Preferences,
  set_pref, set_notification_pref, Theme,
}

pub record Item : Type 0 where
  pub key : PrefKey
  pub label : String
  pub hint : String

unfoldable pub notification_items : List Item
notification_items =
    record {
      key = share_activity_key;
      label = "settings.notifications.shareActivity";
      hint = "settings.notifications.shareActivityHint";
    }
    ∷ record {
      key = downloads_key;
      label = "settings.notifications.downloads";
      hint = "settings.notifications.downloadsHint";
    }
    ∷ record {
      key = new_members_key;
      label = "settings.notifications.newMembers";
      hint = "settings.notifications.newMembersHint";
    }
    ∷ record {
      key = storage_key;
      label = "settings.notifications.storage";
      hint = "settings.notifications.storageHint";
    }
    ∷ []

-- `values[item.key]`.
unfoldable pub value_of : Prefs → PrefKey → Option Bool
value_of p share_activity_key = p.share_activity
value_of p downloads_key = p.downloads
value_of p new_members_key = p.new_members
value_of p storage_key = p.storage

-- Each label with the position of its switch.
unfoldable pub switches : Prefs → List (String × Option Bool)
switches p = map (λ i. (i.label, value_of p i.key)) notification_items

abbrev is_key : PrefKey → PrefKey → Bool
is_key share_activity_key share_activity_key = true
is_key downloads_key downloads_key = true
is_key new_members_key new_members_key = true
is_key storage_key storage_key = true
is_key _ _ = false

-- A switch that is turned shows what it was turned to, and the others what they showed before.
pub value_of-set_notification_pref :
    (print_theme : Theme → String) (print_prefs : Prefs → String) (key other : PrefKey)
    (value : Bool) (s : Preferences)
    → value_of (set_notification_pref print_theme print_prefs key value s).prefs other
      ≡ (if is_key key other then some value else value_of s.prefs other)
unfolding value_of set_notification_pref set_pref
value_of-set_notification_pref pt pp share_activity_key share_activity_key v s = refl
value_of-set_notification_pref pt pp share_activity_key downloads_key v s = refl
value_of-set_notification_pref pt pp share_activity_key new_members_key v s = refl
value_of-set_notification_pref pt pp share_activity_key storage_key v s = refl
value_of-set_notification_pref pt pp downloads_key share_activity_key v s = refl
value_of-set_notification_pref pt pp downloads_key downloads_key v s = refl
value_of-set_notification_pref pt pp downloads_key new_members_key v s = refl
value_of-set_notification_pref pt pp downloads_key storage_key v s = refl
value_of-set_notification_pref pt pp new_members_key share_activity_key v s = refl
value_of-set_notification_pref pt pp new_members_key downloads_key v s = refl
value_of-set_notification_pref pt pp new_members_key new_members_key v s = refl
value_of-set_notification_pref pt pp new_members_key storage_key v s = refl
value_of-set_notification_pref pt pp storage_key share_activity_key v s = refl
value_of-set_notification_pref pt pp storage_key downloads_key v s = refl
value_of-set_notification_pref pt pp storage_key new_members_key v s = refl
value_of-set_notification_pref pt pp storage_key storage_key v s = refl
