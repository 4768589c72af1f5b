-- ===== src/Format.antt =====
-- Byte counts in units of 1024: the `formatBytes` functions of web/src. Logarithms and quotients are
-- exact here, and a shown number is a number of tenths, or of ones.
pub mod Log
pub mod Laws
mod Tests
use go_drive.Base.{
  ℕ, zero, suc, ◌+◌, ◌*◌, ◌/◌, ◌^◌, String, Bool, true, false, not, ◌||◌, Option, none, some, List,
  [], ◌∷◌, ltb, leb, if◌then◌else◌,
}
use go_drive.Format.Log.{floor_log}
use Prim.Native.Nat.{min}

-- `value` is counted in tenths if there is one decimal; a unit that the table lacks is undefined.
pub record Shown : Type 0 where
  pub value : ℕ
  pub decimals : ℕ
  pub unit : Option String

abbrev pub units : List String
units = "B" ∷ "KB" ∷ "MB" ∷ "GB" ∷ "TB" ∷ []

abbrev pub get_elem? {ℓ} : {A : Type ℓ} → List A → ℕ → Option A
get_elem? [] i = none
get_elem? (x ∷ xs) zero = some x
get_elem? (x ∷ xs) (suc i) = get_elem? xs i

-- `toFixed(1)` and `toFixed(0)` of bytes / 1024 ** i, halves upwards.
abbrev pub tenths : ℕ → ℕ → ℕ
tenths bytes i = (20 * bytes + 1024 ^ i) / (2 * 1024 ^ i)

abbrev pub ones : ℕ → ℕ → ℕ
ones bytes i = (2 * bytes + 1024 ^ i) / (2 * 1024 ^ i)

abbrev pub nothing : Shown
nothing = record { value = 0; decimals = 0; unit = some "B" }

-- files/files.ts and activity/activity.ts: `parseFloat` drops a last ".0" from the text, which does
-- not change the number.
unfoldable pub format_bytes : ℕ → Shown
format_bytes zero = nothing
format_bytes (suc n) =
    let i = floor_log (suc n) in
    record { value = tenths (suc n) i; decimals = 1; unit = get_elem? units i }

abbrev pub is_zero : ℕ → Bool
is_zero zero = true
is_zero (suc n) = false

-- stores/stores.ts: `value >= 10 || i === 0` shows no decimals.
unfoldable pub format_store_bytes : ℕ → Shown
format_store_bytes zero = nothing
format_store_bytes (suc n) =
    let i = min 4 (floor_log (suc n)) in
    if leb (10 * 1024 ^ i) (suc n) || is_zero i
    then record { value = ones (suc n) i; decimals = 0; unit = get_elem? units i }
    else record { value = tenths (suc n) i; decimals = 1; unit = get_elem? units i }

-- FilePreviewPage.tsx, SharedLinkPage.tsx and TrackedLinkPage.tsx, by `Math.log2(bytes) / 10`.
unfoldable pub format_public_bytes : ℕ → Shown
format_public_bytes zero = nothing
format_public_bytes (suc n) =
    let i = min (floor_log (suc n)) 4 in
    if is_zero i
    then record { value = ones (suc n) i; decimals = 0; unit = get_elem? units i }
    else record { value = tenths (suc n) i; decimals = 1; unit = get_elem? units i }
