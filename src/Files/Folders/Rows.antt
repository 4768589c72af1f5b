-- ===== src/Files/Folders/Rows.antt =====
-- Which lines the tree of folders of web/src/pages/app/files/FolderPicker.tsx has.
use mathlib.Core.Path.{subst}
use go_drive.Base.{
  ℕ, zero, suc, ◌+◌, ◌≤◌, String, Bool, true, false, Option, none, some, List, [], ◌∷◌, ◌++◌,
  length, ◌==◌, ◌≡◌, ◌⊎◌, ◌↔◌, refl, sym, arith, In, In-append_left, In-append_right, inl, inr,
  if◌then◌else◌,
}
use go_drive.Files.Folders.{Folder, Line, folder, loading, lines, or_none, pending_line}

module _ (expanded : List String → Bool) (children : String → Option (List Folder))
    (value : String) where
  -- A row below a path whose folders are given: one of these, or a row below one of them that is
  -- expanded and whose children are there. The identifiers on its way stand deepest first.
  pub data Row : List String → List Folder → List String → Folder → Type 0 where
    here :
        {base : List String} {fs : List Folder} {f : Folder} → In f fs → Row base fs (f.id ∷ base) f
    down :
        {base path : List String} {fs : List Folder} {f : Folder} (g : Folder) (gs : List Folder)
        → In g fs
        → expanded (g.id ∷ base) ≡ true
        → children g.id ≡ some gs
        → Row (g.id ∷ base) gs path f
        → Row base fs path f

  -- The line of a row, and the line below a row that is expanded and has no answer yet.
  abbrev pub IsOwn : List String → Folder → Line → Type 0
  IsOwn path f l =
      (l ≡ folder path f.name (expanded path) (value == f.id))
      ⊎ ((expanded path ≡ true) × (children f.id ≡ none) × (l ≡ loading path))

  abbrev pub IsLine : List String → List Folder → Line → Type 0
  IsLine base fs l = (path : List String) × (f : Folder) × Row base fs path f × IsOwn path f l

  -- The lines of a folder after its own.
  abbrev block : ℕ → List String → Folder → List Line
  block n path f =
      if expanded path
      then pending_line (children f.id) path
        ++ lines expanded children value n path (or_none (children f.id))
      else []

  later :
      {base path : List String} {f : Folder} {fs : List Folder} (g : Folder)
      → Row base fs path f
      → Row base (g ∷ fs) path f
  later g (here i) = here (inr i)
  later g (down k ks i e c r) = down k ks (inr i) e c r

  append-In : (l : Line) (xs ys : List Line) → In l (xs ++ ys) → In l xs ⊎ In l ys
  append-In l [] ys h = inr h
  append-In l (x ∷ xs) ys (inl e) = inl (inl e)
  append-In l (x ∷ xs) ys (inr h) = elim (append-In l xs ys h) [
    | inl i ↦ inl (inr i)
    | inr i ↦ inr i
  ]

  no_lines : (n : ℕ) (path : List String) → lines expanded children value n path [] ≡ []
  unfolding lines
  no_lines zero path = refl
  no_lines (suc n) path = refl

  -- What a line after a folder's own stands for.
  block_cases :
      (n : ℕ) (path : List String) (f : Folder) (l : Line)
      → In l (block n path f)
      → ((expanded path ≡ true) × (children f.id ≡ none) × (l ≡ loading path))
        ⊎ ((gs : List Folder) × (expanded path ≡ true)
            × (children f.id ≡ some gs)
            × In l (lines expanded children value n path gs))
  block_cases n path f l h = cases (expanded path) (children f.id) refl refl h
    where
      cases :
          (b : Bool) (c : Option (List Folder))
          → expanded path ≡ b
          → children f.id ≡ c
          → In l (
              if b
              then pending_line c path ++ lines expanded children value n path (or_none c)
              else [])
          → ((expanded path ≡ true) × (children f.id ≡ none) × (l ≡ loading path))
            ⊎ ((gs : List Folder) × (expanded path ≡ true)
                × (children f.id ≡ some gs)
                × In l (lines expanded children value n path gs))
      cases false c e k i = absurd i
      cases true none e k (inl i) = inl (e, k, sym i)
      cases true none e k (inr i) = absurd (rw (no_lines n path) at i)
      cases true (some gs) e k i = inr (gs, e, k, i)

  lines-IsLine :
      (n : ℕ) (base : List String) (fs : List Folder) (l : Line)
      → In l (lines expanded children value n base fs)
      → IsLine base fs l
  unfolding lines
  lines-IsLine zero base fs l h = absurd h
  lines-IsLine (suc n) base [] l h = absurd h
  lines-IsLine (suc n) base (f ∷ fs) l (inl e) = (f.id ∷ base, f, here (inl refl), inl (sym e))
  lines-IsLine (suc n) base (f ∷ fs) l (inr h) =
      elim (append-In l (block n (f.id ∷ base) f) (lines expanded children value (suc n) base fs)
        h) [
          | inl i ↦ elim (block_cases n (f.id ∷ base) f l i) [
            | inl w ↦ (f.id ∷ base, f, here (inl refl), inr w)
            | inr w ↦
                let (gs, e, c, j) = w in
                let (path, g, row, own) = lines-IsLine n (f.id ∷ base) gs l j in
                (path, g, down f gs (inl refl) e c row, own)
          ]
          | inr i ↦
              let (path, g, row, own) = lines-IsLine (suc n) base fs l i in
              (path, g, later f row, own)
        ]

  -- The own line of a listed folder, and what stands below it, is among the lines.
  listed-lines :
      (n : ℕ) (base : List String) (fs : List Folder) (f : Folder) (l : Line)
      → In f fs
      → (l ≡ folder (f.id ∷ base) f.name (expanded (f.id ∷ base)) (value == f.id))
        ⊎ In l (block n (f.id ∷ base) f)
      → In l (lines expanded children value (suc n) base fs)
  unfolding lines
  listed-lines n base [] f l i h = absurd i
  listed-lines n base (g ∷ fs) f l (inl e) h =
      subst
        (λ k. In l (
          folder (k.id ∷ base) k.name (expanded (k.id ∷ base)) (value == k.id)
            ∷ block n (k.id ∷ base) k
          ++ lines expanded children value (suc n) base fs))
        (sym e) (first h)
    where
      first :
          (l ≡ folder (f.id ∷ base) f.name (expanded (f.id ∷ base)) (value == f.id))
            ⊎ In l (block n (f.id ∷ base) f)
          → In l (
              folder (f.id ∷ base) f.name (expanded (f.id ∷ base)) (value == f.id)
                ∷ block n (f.id ∷ base) f
              ++ lines expanded children value (suc n) base fs)
      first (inl w) = inl (sym w)
      first (inr w) = inr (
          In-append_left l (block n (f.id ∷ base) f) (lines expanded children value (suc n) base fs)
            w)
  listed-lines n base (g ∷ fs) f l (inr i) h = inr (
      In-append_right l (block n (g.id ∷ base) g) (lines expanded children value (suc n) base fs)
        (listed-lines n base fs f l i h))

  module _ (d : ℕ) (closed : (path : List String) → d ≤ length path → expanded path ≡ false) where
    row-lines :
        (n : ℕ) (base path : List String) (fs : List Folder) (f : Folder) (l : Line)
        → d ≤ length base + suc n
        → Row base fs path f
        → IsOwn path f l
        → In l (lines expanded children value (suc n) base fs)
    row-lines n base path fs f l h (here i) (inl e) = listed-lines n base fs f l i (inl e)
    row-lines n base path fs f l h (here i) (inr (e, c, w)) =
        listed-lines n base fs f l i (inr (rw (e, c) (inl (sym w))))
    row-lines zero base path fs f l h (down g gs i e c r) o =
        let shut = closed (g.id ∷ base) (omega (arith, h)) in cc
    row-lines (suc n) base path fs f l h (down g gs i e c r) o =
        let below = row-lines n (g.id ∷ base) path gs f l (omega (arith, h)) r o in
        listed-lines (suc n) base fs g l i (inr (rw (e, c) below))

    -- If no row is expanded from some depth on, which is given as fuel, also where the server's
    -- folders contain each other, the tree has exactly these lines: one for each folder of the root
    -- and of each expanded row whose children are there, with whether it is expanded and selected,
    -- and one that says so for each expanded row whose children still load.
    pub lines_iff :
        (n : ℕ) (fs : List Folder) (l : Line)
        → d ≤ suc n
        → In l (lines expanded children value (suc n) [] fs) ↔ IsLine [] fs l
    lines_iff n fs l h = (
      lines-IsLine (suc n) [] fs l,
      λ w. let (path, f, row, own) = w in row-lines n [] path fs f l (omega (arith, h)) row own,
    )
