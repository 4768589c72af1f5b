-- ===== src/Links/Dialog.antt =====
-- What the edit dialog of web/src/pages/app/LinksPage.tsx sends for a link that was not touched.
use go_drive.Base.{
  ℕ, zero, suc, String, Bool, true, false, Option, none, some, get, get-put, get-put?, override,
  ◌≡◌, ◌≢◌, refl, arith, eq_iff, truthy, ap,
}
use go_drive.Links.Form.{
  AnyLink, share_link, upload_link, tracked_link, kind_of, form_of, limit_text, date_of, LinkKind,
  slice_start,
}
use go_drive.Links.Bodies.{Json, bool, num, given, number_given, date_given, build_update_body}

override-none : {A : Type 0} (same : Bool) (old : Option A) → override none same old ≡ old
override-none same old = refl

override-other : {A : Type 0} (v old : Option A) → override v false old ≡ old
override-other none old = refl
override-other (some a) old = refl

override-fresh : {A : Type 0} (v : Option A) → override v true none ≡ v
override-fresh none = refl
override-fresh (some a) = refl

ruleset reads = (get-put, get-put?, override-other, override-fresh)

-- A limit as the body carries it: one that is not set, or 0, is left out.
abbrev limit_value : Option ℕ → Option Json
limit_value none = none
limit_value (some zero) = none
limit_value (some (suc n)) = some (num (suc n))

module _ (print : ℕ → String) (number : String → Json) (iso : String → String)
    (printed : (n : ℕ) → print n ≢ "") (reread : (n : ℕ) → number (print n) ≡ num n) where
  limit-reread : (l : Option ℕ) → number_given number iso (limit_text print l) ≡ limit_value l
  limit-reread none = refl
  limit-reread (some zero) = refl
  limit-reread (some (suc n)) =
      ground (arith, printed (suc n), reread (suc n), eq_iff (print (suc n)) "")

  -- What the body has to say of each kind of link under a key.
  abbrev pub Untouched : AnyLink → (String → Option Json) → Type 0
  Untouched (share_link l) sent =
      (sent "isActive" ≡ some (bool l.is_active))
      × (sent "access" ≡ given l.access)
      × (sent "maxDownloads" ≡ limit_value l.max_downloads)
      × (sent "password" ≡ none)
      × (sent "expiresAt" ≡ date_given number iso (date_of l.expires_at))
  Untouched (upload_link l) sent =
      (sent "isActive" ≡ some (bool l.is_active))
      × (sent "name" ≡ given l.name)
      × (sent "maxFiles" ≡ limit_value l.max_files)
      × (sent "maxFileSize" ≡ limit_value l.max_file_size)
      × (sent "password" ≡ none)
      × (sent "expiresAt" ≡ date_given number iso (date_of l.expires_at))
  Untouched (tracked_link l) sent =
      (sent "isActive" ≡ some (bool l.is_active))
      × (sent "name" ≡ given l.name)
      × (sent "description" ≡ given l.description)
      × (sent "access" ≡ given l.access)
      × (sent "requireEmail" ≡ some (bool l.require_email))
      × (sent "maxViews" ≡ limit_value l.max_views)
      × (sent "password" ≡ none)
      × (sent "expiresAt" ≡ date_given number iso (date_of l.expires_at))

  -- Saving the edit dialog of a link as it was loaded sends, for each kind, the link's own switch,
  -- name, description, access, e-mail demand and limits (empty texts and limits that are unset or
  -- 0 left out), no password, and the expiry date. Numbers print as a nonempty text and are read
  -- back from it.
  pub update-Untouched :
      (link : AnyLink)
      → Untouched link
          (get (build_update_body number iso (kind_of link) (form_of print (kind_of link) link)))
  unfolding build_update_body form_of get
  update-Untouched (share_link l) =
      (simp reads, simp reads, simp reads (limit-reread _), simp reads, simp reads)
  update-Untouched (upload_link l) = (
    simp reads,
    simp reads,
    simp reads (limit-reread _),
    simp reads (limit-reread _),
    simp reads,
    simp reads,
  )
  update-Untouched (tracked_link l) = (
    simp reads,
    simp reads,
    simp reads,
    simp reads,
    simp reads,
    simp reads (limit-reread _),
    simp reads,
    simp reads,
  )

-- The link with another time of expiry.
abbrev pub with_expiry : AnyLink → String → AnyLink
with_expiry (share_link l) time = share_link (record l { expires_at = some time })
with_expiry (upload_link l) time = upload_link (record l { expires_at = some time })
with_expiry (tracked_link l) time = tracked_link (record l { expires_at = some time })

date_of-slice :
    (a b : String)
    → truthy a ≡ true
    → truthy b ≡ true
    → slice_start 10 a ≡ slice_start 10 b
    → date_of (some a) ≡ date_of (some b)
date_of-slice a b p q h = rw (p, q) h

form_of-date :
    (print : ℕ → String) (kind : LinkKind) (link : AnyLink) (a b : String)
    → date_of (some a) ≡ date_of (some b)
    → form_of print kind (with_expiry link a) ≡ form_of print kind (with_expiry link b)
unfolding form_of
form_of-date print kind (share_link l) a b h =
    ap (λ d. record (form_of print kind (share_link l)) { expires_at = d }) h
form_of-date print kind (upload_link l) a b h =
    ap (λ d. record (form_of print kind (upload_link l)) { expires_at = d }) h
form_of-date print kind (tracked_link l) a b h =
    ap (λ d. record (form_of print kind (tracked_link l)) { expires_at = d }) h

-- The edit dialog keeps only the date of an expiry: two expiries with the same first ten characters
-- are sent back alike, whatever their times of day, when the user saves without a change.
pub update_drops_time :
    (print : ℕ → String) (number : String → Json) (iso : String → String) (link : AnyLink)
    (a b : String)
    → truthy a ≡ true
    → truthy b ≡ true
    → slice_start 10 a ≡ slice_start 10 b
    → build_update_body number iso
        (kind_of link)
        (form_of print (kind_of link) (with_expiry link a))
      ≡ build_update_body number iso
          (kind_of link)
          (form_of print (kind_of link) (with_expiry link b))
update_drops_time print number iso link a b p q h =
    ap (build_update_body number iso (kind_of link))
      (form_of-date print (kind_of link) link a b (date_of-slice a b p q h))
