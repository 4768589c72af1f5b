-- ===== src/Stores/Card.antt =====
-- The row of a store: web/src/pages/app/stores/StoreCard.tsx, and `providerLabel` of stores.ts.
-- The width of a bar is a fraction of its limit.
use go_drive.Base.{
  ℕ, String, Bool, false, not, ◌&&◌, Option, none, some, List, [], ◌∷◌, ◌++◌, ltb, leb, ◌==◌,
  if◌then◌else◌, All, true, ◌<◌, ◌≡◌, Bool-cases, arith, ◌≤◌, inl, ◌↔◌, ltb→lt, inr,
}
use go_drive.Stores.Form.{Store}

-- The label of a provider: a key of the translations, or the provider's own name.
unfoldable provider_label : String → String
provider_label provider =
    if provider == "local"
    then "stores.providerLocal"
    else if provider == "s3"
    then "stores.providerS3"
    else if provider == "gdrive"
    then "stores.providerGdrive"
    else if provider == "b2"
    then "stores.providerB2"
    else if provider == "wasabi"
    then "stores.providerWasabi"
    else if provider == "spaces"
    then "stores.providerSpaces"
    else if provider == "hetzner"
    then "stores.providerHetzner"
    else if provider == "idrivee2"
    then "stores.providerIdrivee2"
    else if provider == "storj"
    then "stores.providerStorj"
    else provider

pub record QuotaRow : Type 0 where
  pub label : String
  pub limit : ℕ

abbrev row_if : Bool → String → ℕ → List QuotaRow
row_if shown label limit = if shown then record { label = label; limit = limit } ∷ [] else []

unfoldable pub quota_rows : Store → List QuotaRow
quota_rows s =
    row_if (ltb 0 s.provider_quota_limit) "stores.driveQuota" s.provider_quota_limit
    ++ row_if (ltb 0 s.quota_limit) "stores.storageLimit" s.quota_limit

-- `Math.min(100, (used / limit) * 100)` percent, as the part of `limit` that is filled.
unfoldable pub filled : ℕ → QuotaRow → ℕ
filled used row = if leb row.limit used then row.limit else used

unfoldable pub is_over : ℕ → QuotaRow → Bool
is_over used row = ltb row.limit used

pub data Badge : Type 0 where
  connected pending error primary : Badge

abbrev badge_if : Bool → Badge → List Badge
badge_if shown badge = if shown then badge ∷ [] else []

abbrev is_primary : Option String → Store → Bool
is_primary none s = false
is_primary (some id) s = s.id == id

unfoldable pub badges : Option String → Store → List Badge
badges primary_id s =
    let drive = s.provider == "gdrive" in
    badge_if (drive && (s.status == "active")) connected
    ++ badge_if (drive && (s.status == "pending")) pending
    ++ badge_if (drive && (s.status == "error")) error
    ++ badge_if (is_primary primary_id s) primary

pub data MenuItem : Type 0 where
  edit_store connect_google set_primary test_connection trigger_ingest delete_store : MenuItem

abbrev item_if : Bool → MenuItem → List MenuItem
item_if shown item = if shown then item ∷ [] else []

unfoldable pub menu : Option String → Store → List MenuItem
menu primary_id s =
    edit_store ∷ item_if ((s.provider == "gdrive") && not (s.status == "active")) connect_google
    ++ item_if (not (is_primary primary_id s)) set_primary
    ++ test_connection ∷ trigger_ingest ∷ delete_store ∷ []

-- What a bar is: its limit is positive, it never fills more than that, and it is full and marked
-- exactly when more is used than the limit.
abbrev pub IsBar : ℕ → QuotaRow → Type 0
IsBar used row =
    (0 < row.limit)
    × (filled used row ≤ row.limit)
    × ((is_over used row ≡ true) ↔ (row.limit < used))
    × ((filled used row ≡ row.limit) ↔ (row.limit ≤ used))

row_if-IsBar :
    (used limit : ℕ) (label : String) → All (IsBar used) (row_if (ltb 0 limit) label limit)
unfolding filled is_over
row_if-IsBar used limit label = elim (Bool-cases (ltb 0 limit)) [
  | inl shown ↦ rw shown (
    (
      ltb→lt 0 limit shown,
      ground arith,
      (λ e. ground arith, λ e. ground arith),
      (λ e. ground arith, λ e. ground arith),
    ),
    tt,
  )
  | inr hidden ↦ rw hidden tt
]

All-concat : {A : Type 0} (P : A → Type 0) (xs ys : List A) → All P xs → All P ys → All P (xs ++ ys)
All-concat P [] ys h k = k
All-concat P (x ∷ xs) ys h k = (h.0, All-concat P xs ys h.1 k)

-- Every bar of a store's row is drawn against a positive limit, within the limit, and is full from
-- the limit on; it is marked exactly when more is used.
pub quota_rows-IsBar : (s : Store) → All (IsBar s.quota_used) (quota_rows s)
unfolding quota_rows
quota_rows-IsBar s =
    All-concat (IsBar s.quota_used) (row_if (ltb 0 s.provider_quota_limit) _ _) _
      (row_if-IsBar s.quota_used s.provider_quota_limit "stores.driveQuota")
      (row_if-IsBar s.quota_used s.quota_limit "stores.storageLimit")

abbrev pub shows_primary : List Badge → Bool
shows_primary [] = false
shows_primary (primary ∷ bs) = true
shows_primary (b ∷ bs) = shows_primary bs

abbrev pub shows_connected : List Badge → Bool
shows_connected [] = false
shows_connected (connected ∷ bs) = true
shows_connected (b ∷ bs) = shows_connected bs

abbrev pub offers_primary : List MenuItem → Bool
offers_primary [] = false
offers_primary (set_primary ∷ is) = true
offers_primary (i ∷ is) = offers_primary is

abbrev pub offers_connect : List MenuItem → Bool
offers_connect [] = false
offers_connect (connect_google ∷ is) = true
offers_connect (i ∷ is) = offers_connect is

-- The menu offers to make a store the primary one exactly when its badge does not say that it is,
-- and offers to connect a store exactly when it is a Google Drive store whose badge does not say
-- that it is connected.
pub badges-menu :
    (primary_id : Option String) (s : Store)
    → (offers_primary (menu primary_id s) ≡ not (shows_primary (badges primary_id s)))
      × (offers_connect (menu primary_id s)
          ≡ ((s.provider == "gdrive") && not (shows_connected (badges primary_id s))))
unfolding badges menu
badges-menu primary_id s = ground arith
