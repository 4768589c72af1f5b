-- ===== src/Stores/Partition.antt =====
-- Which stores the groups of web/src/pages/app/stores/StoreGroups.tsx show.
use go_drive.Base.{
  ◌+◌, String, Bool, true, false, not, List, [], ◌∷◌, ◌++◌, filter, map, any, ltb, length,
  length-append, ◌==◌, if◌then◌else◌, ◌≡◌, ◌≢◌, ◌∙◌, refl, sym, ap, arith, eq_iff, eq_refl, All,
  Bool-cases, inl, inr, Dict, get, get-put, ne→false, In, In-filter, In-append_left,
  In-append_right, DistinctBy, distinct-DistinctBy,
}
use go_drive.Stores.Form.{Store}
use go_drive.Stores.Groups.{
  provider_order, Group, of_provider, group_of, is_shown, groups_of, groups, listed, is_collapsed,
  toggle, is_true,
}

-- The provider of the store is one of the list.
abbrev pub is_known : List String → Store → Bool
is_known order s = any (λ p. s.provider == p) order

nil_of_hidden : (stores : List Store) → ltb 0 (length stores) ≡ false → stores ≡ []
nil_of_hidden [] h = refl
nil_of_hidden (s ∷ stores) h = ground arith

-- Leaving out the empty groups leaves out no store.
groups_of-listed :
    (order : List String) (stores : List Store)
    → listed (groups_of order stores) ≡ listed (map (group_of stores) order)
unfolding groups_of listed
groups_of-listed [] stores = refl
groups_of-listed (p ∷ order) stores = elim (Bool-cases (is_shown (group_of stores p))) [
  | inl here ↦
      rw here (ap (λ l. filter (of_provider p) stores ++ l) (groups_of-listed order stores))
  | inr gone ↦
      rw gone
        (rw (nil_of_hidden (filter (of_provider p) stores) gone) (groups_of-listed order stores))
]

not_known :
    (s : Store) (p : String) (order : List String)
    → s.provider ≡ p
    → All (λ q. p ≢ q) order
    → is_known order s ≡ false
not_known s p [] e d = refl
not_known s p (q ∷ order) e d =
    let other : (s.provider == q) ≡ false = ne→false s.provider q (λ k. d.0 (sym e ∙ k)) in
    rw other (not_known s p order e d.1)

split_length :
    (p : String) (order : List String) (stores : List Store)
    → All (λ q. p ≢ q) order
    → length (filter (is_known (p ∷ order)) stores)
      ≡ length (filter (of_provider p) stores) + length (filter (is_known order) stores)
split_length p order [] d = refl
split_length p order (s ∷ stores) d = elim (Bool-cases (of_provider p s)) [
  | inl same ↦
      let unknown = not_known s p order ((eq_iff s.provider p).0 same) d in
      rw (same, unknown) (omega (arith, split_length p order stores d))
  | inr other ↦ rw other (elim (Bool-cases (is_known order s)) [
    | inl known ↦ rw known (omega (arith, split_length p order stores d))
    | inr unknown ↦ rw unknown (split_length p order stores d)
  ])
]

none_known : (stores : List Store) → length (filter (is_known []) stores) ≡ 0
none_known [] = refl
none_known (s ∷ stores) = none_known stores

known_length :
    (order : List String) (stores : List Store)
    → DistinctBy (λ (p : String). p) order
    → length (listed (map (group_of stores) order)) ≡ length (filter (is_known order) stores)
unfolding listed
known_length [] stores d = sym (none_known stores)
known_length (p ∷ order) stores d = omega (
  arith,
  length-append (filter (of_provider p) stores) (listed (map (group_of stores) order)),
  known_length order stores d.1,
  split_length p order stores d.0,
)

listed-In :
    (order : List String) (s : Store) (stores : List Store)
    → In s stores
    → is_known order s ≡ true
    → In s (listed (map (group_of stores) order))
unfolding listed
listed-In [] s stores i k = cc
listed-In (p ∷ order) s stores i k = elim (Bool-cases (of_provider p s)) [
  | inl same ↦ In-append_left s _ _ (In-filter (of_provider p) s stores i same)
  | inr other ↦
      In-append_right s (filter (of_provider p) stores) _
        (listed-In order s stores i (rw other at k))
]

filter-shown : (gs : List Group) → All (λ g. is_shown g ≡ true) (filter is_shown gs)
filter-shown [] = tt
filter-shown (g ∷ gs) = elim (Bool-cases (is_shown g)) [
  | inl here ↦ rw here (here, filter-shown gs)
  | inr gone ↦ rw gone (filter-shown gs)
]

order_distinct : DistinctBy (λ (p : String). p) provider_order
order_distinct = distinct-DistinctBy (λ (p : String). p) provider_order refl

-- Every store of a known provider is listed under some group, the groups together list as many
-- stores as there are of known providers, and no group is empty.
pub groups_partition :
    (stores : List Store)
    → ((s : Store) → In s stores → is_known provider_order s ≡ true → In s (listed (groups stores)))
      × (length (listed (groups stores)) ≡ length (filter (is_known provider_order) stores))
      × All (λ g. is_shown g ≡ true) (groups stores)
unfolding groups
groups_partition stores = (
  λ s i k. rw (groups_of-listed provider_order stores) (listed-In provider_order s stores i k),
  rw (groups_of-listed provider_order stores) (known_length provider_order stores order_distinct),
  unfold groups_of in filter-shown (map (group_of stores) provider_order),
)

is_collapsed-toggle :
    (p q : String) (c : Dict Bool)
    → is_collapsed (toggle p c) q ≡ (if p == q then not (is_collapsed c p) else is_collapsed c q)
unfolding toggle is_collapsed
is_collapsed-toggle p q c =
    ap is_true (get-put c p q (not (is_true (get c p))))
    ∙ elim (Bool-cases (p == q)) [ inl same ↦ rw same | inr other ↦ rw other ]

-- A second press of a group's header brings back what was shown, and a press changes no other group.
toggle-toggle :
    (p q : String) (c : Dict Bool)
    → (is_collapsed (toggle p (toggle p c)) q ≡ is_collapsed c q)
      × (p ≢ q → is_collapsed (toggle p c) q ≡ is_collapsed c q)
toggle-toggle p q c =
    let once = is_collapsed-toggle p q c in
    let twice = is_collapsed-toggle p q (toggle p c) in
    let own = is_collapsed-toggle p p c in
    (
      elim (Bool-cases (p == q)) [
        | inl same ↦ back ((eq_iff p q).0 same)
        | inr other ↦ ground (arith, once, twice, other)
      ],
      λ d. ground (arith, once, ne→false p q d),
    )
  where
    back : p ≡ q → is_collapsed (toggle p (toggle p c)) q ≡ is_collapsed c q
    back e =
        rw (← e) (
          ground
            (arith, is_collapsed-toggle p p (toggle p c), is_collapsed-toggle p p c, eq_refl p))
