-- ===== src/Org/Slug.antt =====
-- The slug that the dialog for a new organization makes of a name: `handleNameChange` of
-- web/src/components/CreateOrgDialog.tsx. `toLowerCase` is a parameter.
use Prim.Native.Char.{Char, code}
use Prim.Native.Nat.{compare, Ordering}
use go_drive.Base.{
  String, Bool, true, false, not, ◌&&◌, ◌||◌, leb, if◌then◌else◌, ◌≡◌, refl, arith, Bool-cases, inl,
  inr, ap,
}

unfoldable pub is_dash : Char → Bool
is_dash c = elim (compare 45 (code c)) [ Ordering.eq ↦ true | _ ↦ false ]

-- `[a-z0-9-]`.
unfoldable pub is_slug_char : Char → Bool
unfolding is_dash
is_slug_char c =
    (leb 97 (code c) && leb (code c) 122) || (leb 48 (code c) && leb (code c) 57) || is_dash c

-- `.replace(/[^a-z0-9-]/g, '-')`.
unfoldable pub dashed : String → String
dashed String.[] = ""
dashed (String.◌∷◌ c s) = String.◌∷◌ (if is_slug_char c then c else "-") (dashed s)

-- `.replace(/-+/g, '-')`; the test says whether the character before was a dash.
unfoldable pub collapse : Bool → String → String
collapse after_dash String.[] = ""
collapse after_dash (String.◌∷◌ c s) =
    let dropped = collapse true s in
    let kept = String.◌∷◌ c (collapse (is_dash c) s) in
    if is_dash c && after_dash then dropped else kept

-- `.replace(/^-|-$/g, '')`.
unfoldable pub drop_first : String → String
drop_first String.[] = ""
drop_first (String.◌∷◌ c s) = if is_dash c then s else String.◌∷◌ c s

unfoldable pub drop_last : String → String
drop_last String.[] = ""
drop_last (String.◌∷◌ c String.[]) = if is_dash c then "" else String.◌∷◌ c ""
drop_last (String.◌∷◌ c (String.◌∷◌ d s)) = String.◌∷◌ c (drop_last (String.◌∷◌ d s))

unfoldable pub slug_of : (String → String) → String → String
unfolding dashed collapse drop_first drop_last
slug_of lower name = drop_last (drop_first (collapse false (dashed (lower name))))

-- Only characters of a slug, and no dash after a dash; the first test is for what comes before.
abbrev is_clean : Bool → String → Bool
is_clean after_dash String.[] = true
is_clean after_dash (String.◌∷◌ c s) =
    is_slug_char c && not (is_dash c && after_dash) && is_clean (is_dash c) s

abbrev ends_in_dash : String → Bool
ends_in_dash String.[] = false
ends_in_dash (String.◌∷◌ c String.[]) = is_dash c
ends_in_dash (String.◌∷◌ c (String.◌∷◌ d s)) = ends_in_dash (String.◌∷◌ d s)

abbrev pub IsSlug : String → Type 0
IsSlug s = (is_clean true s ≡ true) × (ends_in_dash s ≡ false)

and_left : (a b : Bool) → (a && b) ≡ true → a ≡ true
and_left true b h = refl
and_left false b h = cc

and_right : (a b : Bool) → (a && b) ≡ true → b ≡ true
and_right true b h = h
and_right false b h = cc

slug_char : (c : Char) → is_slug_char (if is_slug_char c then c else "-") ≡ true
slug_char c = elim (Bool-cases (is_slug_char c)) [
  | inl good ↦ rw good good
  | inr bad ↦ rw bad (unfold is_slug_char in refl)
]

-- One step of the collapse, for the character that the first replacement gives.
step_clean :
    (t : String) (m : Char) (q : Bool)
    → ((r : Bool) → is_clean r (collapse r t) ≡ true)
    → is_slug_char m ≡ true
    → is_clean q (if is_dash m && q then collapse true t else String.◌∷◌ m (collapse (is_dash m) t))
      ≡ true
step_clean t m true ih h = elim (Bool-cases (is_dash m)) [
  | inl dash ↦ rw dash (ih true)
  | inr other ↦ rw (other, h, other, ih false) refl
]
step_clean t m false ih h = elim (Bool-cases (is_dash m)) [
  | inl dash ↦ rw (dash, h, dash, ih true) refl
  | inr other ↦ rw (other, h, other, ih false) refl
]

collapse_clean : (p : Bool) (s : String) → is_clean p (collapse p (dashed s)) ≡ true
unfolding collapse dashed
collapse_clean p String.[] = refl
collapse_clean p (String.◌∷◌ c s) =
    step_clean (dashed s) (if is_slug_char c then c else "-") p (λ r. collapse_clean r s)
      (slug_char c)

drop_first_clean : (s : String) → is_clean false s ≡ true → is_clean true (drop_first s) ≡ true
unfolding drop_first
drop_first_clean String.[] h = refl
drop_first_clean (String.◌∷◌ c s) h = elim (Bool-cases (is_dash c)) [
  | inl dash ↦
      let rest : is_clean (is_dash c) s ≡ true =
        and_right (is_slug_char c && not (is_dash c && false)) _ h in
      rw dash (rw dash at rest)
  | inr other ↦ rw other (ground (arith, h, other))
]

drop_last_clean : (p : Bool) (s : String) → is_clean p s ≡ true → is_clean p (drop_last s) ≡ true
unfolding drop_last
drop_last_clean p String.[] h = refl
drop_last_clean p (String.◌∷◌ c String.[]) h = elim (Bool-cases (is_dash c)) [
  | inl dash ↦ rw dash refl
  | inr other ↦ rw other (ground (arith, h, other))
]
drop_last_clean p (String.◌∷◌ c (String.◌∷◌ d s)) h =
    let first = is_slug_char c && not (is_dash c && p) in
    let kept : first ≡ true = and_left _ _ h in
    let rest = drop_last_clean (is_dash c) (String.◌∷◌ d s) (and_right first _ h) in
    ground (arith, kept, rest)

drop_last_end : (p : Bool) (s : String) → is_clean p s ≡ true → ends_in_dash (drop_last s) ≡ false
unfolding drop_last
drop_last_end p String.[] h = refl
drop_last_end p (String.◌∷◌ c String.[]) h = elim (Bool-cases (is_dash c)) [
  | inl dash ↦ rw dash refl
  | inr other ↦ rw other other
]
drop_last_end p (String.◌∷◌ c (String.◌∷◌ d String.[])) h = elim (Bool-cases (is_dash d)) [
  | inl dash ↦ rw dash (ground (arith, h, dash))
  | inr other ↦ rw other other
]
drop_last_end p (String.◌∷◌ c (String.◌∷◌ d (String.◌∷◌ e s))) h =
    drop_last_end (is_dash c) (String.◌∷◌ d (String.◌∷◌ e s)) (and_right _ _ h)

-- What the replacements do not change.
dashed_same : (p : Bool) (s : String) → is_clean p s ≡ true → dashed s ≡ s
unfolding dashed
dashed_same p String.[] h = refl
dashed_same p (String.◌∷◌ c s) h =
    let first = is_slug_char c && not (is_dash c && p) in
    let kept : first ≡ true = and_left _ _ h in
    let char : is_slug_char c ≡ true = and_left _ _ kept in
    rw (char, dashed_same (is_dash c) s (and_right first _ h)) refl

collapse_same : (p : Bool) (s : String) → is_clean p s ≡ true → collapse p s ≡ s
unfolding collapse
collapse_same p String.[] h = refl
collapse_same p (String.◌∷◌ c s) h =
    let first = is_slug_char c && not (is_dash c && p) in
    let kept : first ≡ true = and_left _ _ h in
    let single : (is_dash c && p) ≡ false = ground (arith, kept) in
    rw (single, collapse_same (is_dash c) s (and_right first _ h)) refl

clean_anywhere : (s : String) → is_clean true s ≡ true → is_clean false s ≡ true
clean_anywhere String.[] h = refl
clean_anywhere (String.◌∷◌ c s) h = ground (arith, h)

drop_first_same : (s : String) → is_clean true s ≡ true → drop_first s ≡ s
unfolding drop_first
drop_first_same String.[] h = refl
drop_first_same (String.◌∷◌ c s) h =
    let other : is_dash c ≡ false = ground (arith, h) in rw other refl

drop_last_same : (s : String) → ends_in_dash s ≡ false → drop_last s ≡ s
unfolding drop_last
drop_last_same String.[] h = refl
drop_last_same (String.◌∷◌ c String.[]) h = rw h refl
drop_last_same (String.◌∷◌ c (String.◌∷◌ d s)) h =
    ap (String.◌∷◌ c) (drop_last_same (String.◌∷◌ d s) h)

-- Whatever lower case means, the slug made of a name has only the letters a to z, digits and dashes,
-- no dash at its ends and no two dashes in a row; and a name that is such a text and is lower case
-- is its own slug.
pub slug_of-IsSlug :
    (lower : String → String) (name : String)
    → IsSlug (slug_of lower name) × (IsSlug name → lower name ≡ name → slug_of lower name ≡ name)
unfolding slug_of
slug_of-IsSlug lower name =
    let clean =
      drop_first_clean (collapse false (dashed (lower name))) (collapse_clean false (lower name)) in
    ((drop_last_clean true _ clean, drop_last_end true _ clean), λ slug same. kept slug same)
  where
    kept :
        IsSlug name
        → lower name ≡ name
        → drop_last (drop_first (collapse false (dashed (lower name)))) ≡ name
    kept (clean, ends) same =
        rw
          (
            same,
            dashed_same true name clean,
            collapse_same false name (clean_anywhere name clean),
            drop_first_same name clean,
          )
          (drop_last_same name ends)
