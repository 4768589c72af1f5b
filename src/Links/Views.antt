-- ===== src/Links/Views.antt =====
-- What the links page shows: the fields of LinkFormDialog.tsx, the rows of LinksPage.tsx and
-- LinkRow.tsx, and EventsDialog.tsx.
use Prim.Native.String as Text
use go_drive.Base.{
  ℕ, String, Bool, true, false, not, Option, none, some, List, [], ◌∷◌, map, filter, truthy,
  or_text,
}
use go_drive.Links.Form.{
  LinkKind, share, upload, tracked, ShareLink, UploadLink, TrackedLink, LinkForm,
}

-- A change of one field of the dialog.
pub data Edit : Type 0 where
  name access file_id folder_id description password expires_at : String → Edit
  max_downloads max_files max_file_size max_views : String → Edit
  require_email is_active : Bool → Edit

-- `set({ … })`.
unfoldable pub edit : Edit → LinkForm → LinkForm
edit (name v) form = record form { name = v }
edit (access v) form = record form { access = v }
edit (file_id v) form = record form { file_id = v }
edit (folder_id v) form = record form { folder_id = v }
edit (description v) form = record form { description = v }
edit (password v) form = record form { password = v }
edit (expires_at v) form = record form { expires_at = v }
edit (max_downloads v) form = record form { max_downloads = v }
edit (max_files v) form = record form { max_files = v }
edit (max_file_size v) form = record form { max_file_size = v }
edit (max_views v) form = record form { max_views = v }
edit (require_email v) form = record form { require_email = v }
edit (is_active v) form = record form { is_active = v }

abbrev pub is_share : LinkKind → Bool
is_share share = true
is_share _ = false

abbrev is_upload : LinkKind → Bool
is_upload upload = true
is_upload _ = false

abbrev is_tracked : LinkKind → Bool
is_tracked tracked = true
is_tracked _ = false

-- Whether the dialog has the field, for a kind of links and for a link that is edited or new.
unfoldable pub shown : LinkKind → Bool → Edit → Bool
shown kind editing (name v) = not (is_share kind)
shown kind editing (access v) = not (is_upload kind)
shown kind editing (file_id v) = not (is_upload kind)
shown kind editing (folder_id v) = true
shown kind editing (description v) = is_tracked kind
shown kind editing (password v) = true
shown kind editing (expires_at v) = true
shown kind editing (max_downloads v) = is_share kind
shown kind editing (max_files v) = is_upload kind
shown kind editing (max_file_size v) = is_upload kind
shown kind editing (max_views v) = is_tracked kind
shown kind editing (require_email v) = is_tracked kind
shown kind editing (is_active v) = editing

-- A row; the counts are those of views and downloads.
pub record Row : Type 0 where
  pub text : String
  pub views : Option ℕ
  pub downloads : Option ℕ
  pub token : String
  pub active : Bool
  pub has_events : Bool

unfoldable pub share_row : ShareLink → Row
share_row l = record {
  text = l.access;
  views = none;
  downloads = some l.download_count;
  token = l.token;
  active = l.is_active;
  has_events = false;
}

unfoldable pub upload_row : UploadLink → Row
upload_row l = record {
  text = l.name;
  views = none;
  downloads = none;
  token = l.token;
  active = l.is_active;
  has_events = false;
}

unfoldable pub tracked_row : TrackedLink → Row
tracked_row l = record {
  text = or_text l.name l.access;
  views = some l.view_count;
  downloads = some l.download_count;
  token = l.token;
  active = l.is_active;
  has_events = true;
}

-- LinkListCard.tsx: the label for no links, or the rows.
pub data Card : Type 0 where
  empty : String → Card
  rows : List Row → Card

abbrev card_of : String → List Row → Card
card_of label [] = empty label
card_of label (r ∷ rs) = rows (r ∷ rs)

unfoldable pub tab : LinkKind → List ShareLink → List UploadLink → List TrackedLink → Card
tab share ss us ts = card_of "links.noShareLinks" (map share_row ss)
tab upload ss us ts = card_of "links.noUploadLinks" (map upload_row us)
tab tracked ss us ts = card_of "links.noTrackedLinks" (map tracked_row ts)

-- An event of a tracked link, as far as the dialog shows it.
pub record TrackedLinkEvent : Type 0 where
  pub id : String
  pub event_type : String
  pub timestamp : String
  pub browser : String
  pub os : String
  pub country : String

-- `texts.join(' · ')`.
unfoldable pub join : List String → String
join [] = ""
join (s ∷ []) = s
join (s ∷ t ∷ ts) = Text.◌++◌ s (Text.◌++◌ " · " (join (t ∷ ts)))

unfoldable pub event_line : (String → String) → TrackedLinkEvent → String × (String × String)
event_line date e = (
  e.event_type,
  (date e.timestamp, or_text (join (filter truthy (e.browser ∷ e.os ∷ e.country ∷ []))) "—"),
)
