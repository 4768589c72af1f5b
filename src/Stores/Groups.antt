-- ===== src/Stores/Groups.antt =====
-- The stores by provider: web/src/pages/app/stores/StoreGroups.tsx.
use go_drive.Base.{
  String, Bool, false, not, Option, none, some, List, [], ◌∷◌, ◌++◌, filter, map, ltb, length, Dict,
  get, put, ◌==◌,
}
use go_drive.Stores.Form.{Store}

abbrev pub provider_order : List String
provider_order =
    "gdrive" ∷ "s3" ∷ "b2" ∷ "wasabi" ∷ "spaces" ∷ "hetzner" ∷ "idrivee2" ∷ "storj" ∷ "local" ∷ []

pub record Group : Type 0 where
  pub provider : String
  pub items : List Store

abbrev pub of_provider : String → Store → Bool
of_provider provider s = s.provider == provider

abbrev pub group_of : List Store → String → Group
group_of stores provider = record {
  provider = provider;
  items = filter (of_provider provider) stores;
}

abbrev pub is_shown : Group → Bool
is_shown g = ltb 0 (length g.items)

unfoldable pub groups_of : List String → List Store → List Group
groups_of order stores = filter is_shown (map (group_of stores) order)

unfoldable pub groups : List Store → List Group
unfolding groups_of
groups stores = groups_of provider_order stores

-- The stores in the order in which the page shows them, with every group open.
unfoldable pub listed : List Group → List Store
listed [] = []
listed (g ∷ gs) = g.items ++ listed gs

-- `!!collapsed[provider]`.
abbrev pub is_true : Option Bool → Bool
is_true none = false
is_true (some b) = b

unfoldable pub is_collapsed : Dict Bool → String → Bool
is_collapsed collapsed provider = is_true (get collapsed provider)

unfoldable pub toggle : String → Dict Bool → Dict Bool
unfolding is_collapsed
toggle provider collapsed = put collapsed provider (not (is_collapsed collapsed provider))
