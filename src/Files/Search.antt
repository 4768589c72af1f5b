-- ===== src/Files/Search.antt =====
-- The search: `buildSearchUrl` of web/src/pages/app/files/files.ts, and the filters of FileToolbar.tsx.
-- A `URLSearchParams` is the list of its pairs.
use go_drive.Base.{
  refl, ℕ, ◌+◌, ◌*◌, ◌/◌, String, Option, none, some, [], ◌∷◌, Dict, put?, get, truthy,
  if◌then◌else◌, ◌≡◌, arith, ◌==◌, override, get-put?, true,
}

pub record SearchFilters : Type 0 where
  pub kind : Option String
  pub min_size : Option String
  pub max_size : Option String
  pub from : Option String
  pub to : Option String

abbrev pub no_filters : SearchFilters
no_filters = record { kind = none; min_size = none; max_size = none; from = none; to = none }

-- A filter that is there and not empty.
abbrev given_text : Option String → Option String
given_text none = none
given_text (some s) = if truthy s then some s else none

-- The parameters of `buildSearchUrl`.
unfoldable pub build_search_params : String → SearchFilters → Dict String
build_search_params q f =
    let p = put? (("q", q) ∷ []) "kind" (given_text f.kind) in
    let p = put? (put? p "minSize" (given_text f.min_size)) "maxSize" (given_text f.max_size) in
    put? (put? p "from" (given_text f.from)) "to" (given_text f.to)

-- A filter as the menu sets it: `value || undefined`.
abbrev pub chosen : String → Option String
chosen s = if truthy s then some s else none

unfoldable set_kind : String → SearchFilters → SearchFilters
set_kind value f = record f { kind = chosen value }

unfoldable set_from : String → SearchFilters → SearchFilters
set_from value f = record f { from = chosen value }

unfoldable set_to : String → SearchFilters → SearchFilters
set_to value f = record f { to = chosen value }

unfoldable reset_filters : SearchFilters → SearchFilters
reset_filters f = no_filters

abbrev mb : ℕ
mb = 1048576

-- The size fields show whole megabytes of the number of bytes that the filter holds, over the
-- reading and printing of numbers.
module _ (number : String → ℕ) (print : ℕ → String) where
  abbrev size_of : String → Option String
  size_of value = if truthy value then some (print (number value * mb)) else none

  unfoldable set_min_size : String → SearchFilters → SearchFilters
  set_min_size value f = record f { min_size = size_of value }

  unfoldable set_max_size : String → SearchFilters → SearchFilters
  set_max_size value f = record f { max_size = size_of value }

  abbrev shown_as : String → String
  shown_as bytes = if truthy bytes then print ((2 * number bytes + mb) / (2 * mb)) else ""

  -- `filters.minSize ? String(Math.round(Number(filters.minSize) / MB)) : ''`.
  unfoldable shown_size : Option String → String
  shown_size none = ""
  shown_size (some bytes) = shown_as bytes

-- What the search sends under a name: the text, and each filter that is set and not empty.
abbrev expected_param : String → SearchFilters → String → Option String
expected_param q f name = override (given_text f.to) ("to" == name) (
    override (given_text f.from) ("from" == name) (
      override (given_text f.max_size) ("maxSize" == name) (
        override (given_text f.min_size) ("minSize" == name)
          (override (given_text f.kind) ("kind" == name) (if "q" == name then some q else none)))))

-- The parameters of a search are the text under q and each filter that is set and not empty under
-- its own name; no other name is sent.
build_search_params_lem :
    (q : String) (f : SearchFilters) (name : String)
    → get (build_search_params q f) name ≡ expected_param q f name
unfolding build_search_params
build_search_params_lem q f name =
    rw
      (
        get-put? _ "to" name (given_text f.to),
        get-put? _ "from" name (given_text f.from),
        get-put? _ "maxSize" name (given_text f.max_size),
        get-put? _ "minSize" name (given_text f.min_size),
        get-put? _ "kind" name (given_text f.kind),
      )
      (unfold get in refl)

module _ (number : String → ℕ) (print : ℕ → String) (reread : (n : ℕ) → number (print n) ≡ n)
    (printed : (n : ℕ) → truthy (print n) ≡ true) where
  shown_as-size : (n : ℕ) → shown_size number print (size_of number print (print n)) ≡ print n
  unfolding shown_size
  shown_as-size n =
      let whole : (2 * (n * mb) + mb) / (2 * mb) ≡ n = omega arith in
      rw (
        printed n,
        shown_size,
        printed (number (print n) * mb),
        reread (number (print n) * mb),
        reread n,
        whole,
      )

-- A size that the user types in megabytes is shown again as it was typed, when numbers print as
-- nonempty texts that are read back.
shown_size-set :
    (number : String → ℕ) (print : ℕ → String)
    → ((n : ℕ) → number (print n) ≡ n)
    → ((n : ℕ) → truthy (print n) ≡ true)
    → (n : ℕ) (f : SearchFilters)
    → (shown_size number print (set_min_size number print (print n) f).min_size ≡ print n)
      × (shown_size number print (set_max_size number print (print n) f).max_size ≡ print n)
unfolding shown_size set_min_size set_max_size
shown_size-set number print reread printed n f =
    (shown_as-size number print reread printed n, shown_as-size number print reread printed n)
