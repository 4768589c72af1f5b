-- ===== src/Picker.antt =====
-- A field for a file with a preview: web/src/components/FilePicker.tsx, and the compression of
-- web/src/lib/imageCompress.ts. Of the browser's object addresses the model keeps the ones that are
-- not revoked; the drawing of an image, its encoding, and the lower case of a text are arguments.
pub mod Bounds
pub mod Addresses
mod Tests
use Prim.Native.String as Text
use Prim.Native.Nat.{max}
use go_drive.Base.{
  ℕ, zero, suc, ◌+◌, ◌*◌, ◌/◌, String, Bool, true, false, not, ◌&&◌, ◌||◌, Option, none, some, List,
  [], ◌∷◌, filter, ltb, leb, ◌==◌, if◌then◌else◌,
}
use go_drive.Api.{Outcome, resolved, rejected, Failure}

pub record File : Type 0 where
  pub name : String
  pub mime_type : String

pub record Size : Type 0 where
  pub width : ℕ
  pub height : ℕ

-- `Math.round(side * scale)` for the scale `Math.min(1, maxDimension / Math.max(width, height))`.
abbrev pub scaled : ℕ → ℕ → ℕ → ℕ
scaled max_dimension longest side =
    if leb longest max_dimension
    then side
    else (2 * (side * max_dimension) + longest) / (2 * longest)

unfoldable pub canvas_size : ℕ → Size → Size
canvas_size max_dimension bitmap = record {
  width = scaled max_dimension (max bitmap.width bitmap.height) bitmap.width;
  height = scaled max_dimension (max bitmap.width bitmap.height) bitmap.height;
}

module _ (lower : String → String) where
  -- The whole of the text is an ending that `/\.(png|jpe?g)$/i` matches.
  abbrev is_ending : String → Bool
  is_ending s = lower s == ".png" || lower s == ".jpg" || lower s == ".jpeg"

  -- `file.name.replace(…, '')`.
  unfoldable pub base_name : String → String
  base_name Text.[] = ""
  base_name (Text.◌∷◌ c s) =
      let rest = Text.◌∷◌ c (base_name s) in if is_ending (Text.◌∷◌ c s) then "" else rest

  -- A blob, if the canvas has a context and gives one.
  abbrev converted : File → Bool → File
  converted file true = record {
    name = Text.◌++◌ (base_name file.name) ".webp";
    mime_type = "image/webp";
  }
  converted file false = file

  abbrev drawn : (Size → Bool) → ℕ → File → Outcome Size → Outcome File
  drawn encodes max_dimension file (rejected e) = rejected e
  drawn encodes max_dimension file (resolved bitmap) =
      resolved (converted file (encodes (canvas_size max_dimension bitmap)))

  -- `compressToWebP`, for the bitmap that `loadBitmap` gives and for which sizes of a canvas there is
  -- a blob.
  unfoldable pub compress_to_webp : (Size → Bool) → ℕ → File → Outcome Size → Outcome File
  compress_to_webp encodes max_dimension file bitmap =
      if not (file.mime_type == "image/png") && not (file.mime_type == "image/jpeg")
      then resolved file
      else drawn encodes max_dimension file bitmap

-- The value that the owner of the field holds, the preview, the addresses in use, and the next
-- address that the browser gives.
pub record Picker : Type 0 where
  pub value : Option File
  pub preview_url : Option ℕ
  pub live : List ℕ
  pub next : ℕ

abbrev pub initial : Picker
initial = record { value = none; preview_url = none; live = []; next = 0 }

abbrev same : ℕ → ℕ → Bool
same a b = leb a b && leb b a

-- `if (previewUrl) URL.revokeObjectURL(previewUrl)`.
abbrev pub without : Option ℕ → List ℕ → List ℕ
without none live = live
without (some url) live = filter (λ u. not (same u url)) live

abbrev pub revoke : Picker → Picker
revoke s = record s { live = without s.preview_url s.live }

-- `setPreviewUrl` after `onChange(processed)`.
unfoldable pub show : File → Picker → Picker
show processed s =
    if processed.mime_type == "application/pdf"
    then record s { value = some processed; preview_url = none }
    else record s {
      value = some processed;
      preview_url = some s.next;
      live = s.next ∷ s.live;
      next = suc s.next;
    }

-- `handleChange`, with the end of `compressToWebP`; nothing else happens before it.
unfoldable pub handle_change : Option (File × Outcome File) → Picker → Picker
handle_change none s = record (revoke s) { value = none; preview_url = none }
handle_change (some (file, resolved processed)) s = show processed (revoke s)
handle_change (some (file, rejected e)) s = revoke s

unfoldable pub handle_clear : Picker → Picker
handle_clear s = record (revoke s) { value = none; preview_url = none }

pub data Event : Type 0 where
  change : Option (File × Outcome File) → Event
  clear : Event

unfoldable pub events : Picker → List Event → Picker
events s [] = s
events s (change end ∷ es) = events (handle_change end s) es
events s (clear ∷ es) = events (handle_clear s) es
