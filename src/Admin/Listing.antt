-- ===== src/Admin/Listing.antt =====
-- The search fields of the administration pages: `filtered` of users.tsx and organizations.tsx.
use go_drive.Base.{
  String, Bool, true, ◌||◌, List, filter, includes, includes-empty, Contains, includes_iff, ◌≡◌,
  refl, ◌↔◌, ◌⊎◌, inl, inr, In, In-filter, filter-In, filter-all, Bool-cases,
}

module _ (lower : String → String) where
  -- `a.toLowerCase().includes(search.toLowerCase())`.
  abbrev pub has : String → String → Bool
  has text search = includes (lower text) (lower search)

  module _ {A : Type 0} (first second : A → String) where
    -- The rows of the table: those of whose two texts one contains the search.
    unfoldable pub filtered : String → List A → List A
    filtered search rows = filter (λ r. has (first r) search || has (second r) search) rows

    -- What the search finds: rows whose first or second text contains it, apart from case.
    abbrev pub Matches : String → A → Type 0
    Matches search r =
        Contains (lower (first r)) (lower search) ⊎ Contains (lower (second r)) (lower search)

    or_iff : (s : String) (r : A) → (has (first r) s || has (second r) s ≡ true) ↔ Matches s r
    or_iff s r =
        let a = includes_iff (lower (first r)) (lower s) in
        let b = includes_iff (lower (second r)) (lower s) in
        elim (Bool-cases (has (first r) s)) [
          | inl y ↦ rw y (λ e. inl (a.0 y), λ h. refl)
          | inr n ↦ rw n (λ e. inr (b.0 e), λ h. elim h [ inl p ↦ cc (a.1 p) | inr q ↦ b.1 q ])
        ]

    -- The table lists exactly the rows one of whose two texts contains the search, apart from case;
    -- and with an empty search all of them, in their order, if lower case leaves the empty text.
    pub filtered_lem :
        (search : String) (rows : List A)
        → ((r : A) → In r (filtered search rows) ↔ (In r rows × Matches search r))
          × (lower search ≡ "" → filtered search rows ≡ rows)
    unfolding filtered
    filtered_lem search rows = (
      λ r. (
        λ i.
            let p = filter-In (λ r. has (first r) search || has (second r) search) r rows i in
            (p.0, (or_iff search r).0 p.1),
        λ q.
            In-filter (λ r. has (first r) search || has (second r) search) r rows q.0
              ((or_iff search r).1 q.1),
      ),
      λ e.
          filter-all (λ r. has (first r) search || has (second r) search) rows
            (λ r. rw e (rw (includes-empty (lower (first r))) refl)),
    )
