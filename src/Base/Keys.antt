-- ===== src/Base/Keys.antt =====
-- Lists whose elements are told apart by a text key.
use Prim.Native.String.{String}
use mathlib.Core.Path.{◌≡◌}
use mathlib.Core.Logic.{◌≢◌, inl, inr}
use mathlib.Core.Bool.{Bool, true, false, not, ◌&&◌}
use mathlib.Core.Option.{some}
use mathlib.Core.List.{List, [], ◌∷◌}
use native.Mathlib.Omega.{arith}
use text.Mathlib.TextEquality.{eq_iff}
use text.Mathlib.TextPositions.{eq_refl}
use go_drive.Base.Tests.{◌==◌}
use go_drive.Base.Lists.{find, In, All, all}

pub ne→false : (s t : String) → s ≢ t → (s == t) ≡ false
ne→false s t h = ground (arith, eq_iff s t, h)

pub false→ne : (s t : String) → (s == t) ≡ false → s ≢ t
false→ne s t h = λ e. ground (arith, eq_iff s t)

module _ {A : Type 0} (key : A → String) where
  abbrev pub DistinctBy : List A → Type 0
  DistinctBy [] = Unit
  DistinctBy (x ∷ xs) = All (λ y. key x ≢ key y) xs × DistinctBy xs

  -- The same, as a test.
  abbrev pub distinct : List A → Bool
  distinct [] = true
  distinct (x ∷ xs) = all (λ y. not (key x == key y)) xs && distinct xs

  differ_from :
      (x : A) (xs : List A)
      → all (λ y. not (key x == key y)) xs ≡ true
      → All (λ y. key x ≢ key y) xs
  differ_from x [] h = tt
  differ_from x (y ∷ xs) h =
      (false→ne (key x) (key y) (ground arith), differ_from x xs (ground arith))

  pub distinct-DistinctBy : (xs : List A) → distinct xs ≡ true → DistinctBy xs
  distinct-DistinctBy [] h = tt
  distinct-DistinctBy (x ∷ xs) h =
      (differ_from x xs (ground arith), distinct-DistinctBy xs (ground arith))

module _ {A : Type 0} where
  pub All-In : (P : A → Type 0) (a : A) (xs : List A) → All P xs → In a xs → P a
  All-In P a [] h i = absurd i
  All-In P a (x ∷ xs) h (inl e) = rw e at (h.0)
  All-In P a (x ∷ xs) h (inr i) = All-In P a xs h.1 i

  -- The search for the key of a listed element finds that element.
  pub find-key :
      (key : A → String) (a : A) (xs : List A)
      → DistinctBy key xs
      → In a xs
      → find (λ x. key x == key a) xs ≡ some a
  find-key key a [] d i = absurd i
  find-key key a (x ∷ xs) d (inl e) = rw e (rw (eq_refl (key a)))
  find-key key a (x ∷ xs) d (inr i) =
      let other : key x ≢ key a = All-In (λ y. key x ≢ key y) a xs d.0 i in
      rw (ne→false (key x) (key a) other) (find-key key a xs d.1 i)

  -- Two listed elements with one key are one element.
  pub key-injective :
      (key : A → String) (a b : A) (xs : List A)
      → DistinctBy key xs
      → In a xs
      → In b xs
      → key a ≡ key b
      → a ≡ b
  key-injective key a b xs d i j e =
      let p = find-key key a xs d i in let q = find-key key b xs d j in same (rw e at p) q
    where
      same : find (λ x. key x == key b) xs ≡ some a → find (λ x. key x == key b) xs ≡ some b → a ≡ b
      same p q = cc
