-- ===== src/Base/Text.antt =====
-- `trim` of the language's texts.
use Prim.Native.Nat.{ℕ, compare, Ordering}
use Prim.Native.Char.{code}
use Prim.Native.String.{String}
use mathlib.Core.Path.{◌≡◌, refl, ◌∙◌}
use mathlib.Core.Bool.{Bool, true, false, ◌&&◌, ◌||◌}
use mathlib.Core.Logic.{inl, inr}
use go_drive.Base.Tests.{leb, if◌then◌else◌, Bool-cases}

-- What `trim` takes off: the white space and the line ends of the language.
abbrev pub is_space : ℕ → Bool
is_space c =
    (leb 9 c && leb c 13)
    || same 32
    || same 160
    || same 5760
    || (leb 8192 c && leb c 8202)
    || same 8232
    || same 8233
    || same 8239
    || same 8287
    || same 12288
    || same 65279
  where
    same : ℕ → Bool
    same n = elim (compare n c) [ Ordering.eq ↦ true | _ ↦ false ]

-- `value.trim() === ''`.
unfoldable pub is_blank : String → Bool
is_blank String.[] = true
is_blank (String.◌∷◌ c s) = is_space (code c) && is_blank s

-- `text.trim()`, front and back.
unfoldable pub trim_start : String → String
trim_start String.[] = ""
trim_start (String.◌∷◌ c s) =
    let rest = trim_start s in if is_space (code c) then rest else String.◌∷◌ c s

unfoldable pub trim_end : String → String
unfolding is_blank
trim_end String.[] = ""
trim_end (String.◌∷◌ c s) =
    let rest = String.◌∷◌ c (trim_end s) in if is_blank (String.◌∷◌ c s) then "" else rest

unfoldable pub trim : String → String
unfolding trim_start trim_end
trim s = trim_end (trim_start s)

is_blank-trim_start : (s : String) → is_blank (trim_start s) ≡ is_blank s
unfolding is_blank trim_start
is_blank-trim_start String.[] = refl
is_blank-trim_start (String.◌∷◌ c s) = elim (Bool-cases (is_space (code c))) [
  | inl space ↦ rw space (is_blank-trim_start s)
  | inr other ↦ rw other (rw other refl)
]

is_blank-trim_end : (s : String) → is_blank (trim_end s) ≡ is_blank s
unfolding is_blank trim_end
is_blank-trim_end String.[] = refl
is_blank-trim_end (String.◌∷◌ c s) = elim (Bool-cases (is_space (code c) && is_blank s)) [
  | inl blank ↦ rw blank refl
  | inr text ↦ rw text (rw (is_blank-trim_end s) text)
]

-- Only blank texts trim to blank ones.
pub is_blank-trim : (s : String) → is_blank (trim s) ≡ is_blank s
unfolding trim
is_blank-trim s = is_blank-trim_end (trim_start s) ∙ is_blank-trim_start s
