-- ===== src/Base/Substrings.antt =====
-- `text.startsWith(part)` and `text.includes(part)` of the language's texts.
use Prim.Native.String
use Prim.Native.String.{String}
use mathlib.Core.Path.{◌≡◌, refl, sym, ap, ◌∙◌, subst}
use mathlib.Core.Logic.{◌↔◌, inl, inr}
use mathlib.Core.Bool.{Bool, true, false, ◌||◌}
use text.Mathlib.Text.{starts_with as text_starts_with}
use text.Mathlib.TextEquality.{eq_iff, starts_with_iff as text_starts_with_iff}
use go_drive.Base.Tests.{Bool-cases, ◌==◌}

abbrev pub starts_with : String → String → Bool
starts_with s part = text_starts_with s part

unfoldable pub includes : String → String → Bool
includes String.[] part = starts_with "" part
includes (String.◌∷◌ c s) part = starts_with (String.◌∷◌ c s) part || includes s part

-- The text is made of one before the part, the part, and one after it.
abbrev pub Contains : String → String → Type 0
Contains s part =
    (before : String) × (after : String) × (String.◌++◌ before (String.◌++◌ part after) ≡ s)

starts_with-Contains : (s part : String) → starts_with s part ≡ true → Contains s part
starts_with-Contains s part h =
    let p = (text_starts_with_iff s part).0 h in
    ("", p.0, String.append.nil (String.◌++◌ part p.0) ∙ p.1)

includes-Contains : (s part : String) → includes s part ≡ true → Contains s part
unfolding includes
includes-Contains String.[] part h = starts_with-Contains "" part h
includes-Contains (String.◌∷◌ c s) part h = elim (Bool-cases (starts_with (String.◌∷◌ c s) part)) [
  | inl here ↦ starts_with-Contains (String.◌∷◌ c s) part here
  | inr later ↦
      let p = includes-Contains s part (rw later at h) in
      (
        String.◌∷◌ c p.0,
        p.1,
        String.append.cons c p.0 (String.◌++◌ part p.1) ∙ ap (λ t. String.◌∷◌ c t) p.2,
      )
]

starts_with-includes : (s part : String) → starts_with s part ≡ true → includes s part ≡ true
unfolding includes
starts_with-includes String.[] part h = h
starts_with-includes (String.◌∷◌ c s) part h = rw h refl

includes_of :
    (before part after : String)
    → includes (String.◌++◌ before (String.◌++◌ part after)) part ≡ true
unfolding includes
includes_of String.[] part after =
    starts_with-includes (String.◌++◌ "" (String.◌++◌ part after)) part (
      (text_starts_with_iff (String.◌++◌ "" (String.◌++◌ part after)) part).1
        (after, sym (String.append.nil (String.◌++◌ part after))))
includes_of (String.◌∷◌ c before) part after =
    rw (String.append.cons c before (String.◌++◌ part after))
      (elim (Bool-cases
        (starts_with (String.◌∷◌ c (String.◌++◌ before (String.◌++◌ part after))) part)) [
          | inl here ↦ rw here refl
          | inr later ↦ rw later (includes_of before part after)
        ])

-- The test and the description agree.
pub includes_iff : (s part : String) → (includes s part ≡ true) ↔ Contains s part
includes_iff s part = (
  includes-Contains s part,
  λ p. subst (λ t. includes t part ≡ true) p.2 (includes_of p.0 part p.1),
)

-- Every text contains the empty one.
pub includes-empty : (s : String) → includes s "" ≡ true
includes-empty s = (includes_iff s "").1 ("", s, String.append.nil _ ∙ String.append.nil s)

-- A text that does not start with the first part of another is not that other.
pub ne_longer :
    (s part rest : String) → starts_with s part ≡ false → (s == String.◌++◌ part rest) ≡ false
ne_longer s part rest h = elim (Bool-cases (s == String.◌++◌ part rest)) [
  | inl same ↦
      let e = (eq_iff s (String.◌++◌ part rest)).0 same in
      let t = (text_starts_with_iff s part).1 (rest, sym e) in cc
  | inr other ↦ other
]
