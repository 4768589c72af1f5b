-- ===== src/Org/Tests.antt =====
-- Concrete organizations.
use Prim.Native.String.{String}
use go_drive.Base.{if◌then◌else◌, leb, ◌&&◌, String, some, [], ◌∷◌, ◌≡◌, refl, inl, ◌⊎◌}
use Prim.Native.Char.{code}
use go_drive.Org.Slug.{
  IsSlug, slug_of, dashed, collapse, drop_first, drop_last, is_dash, is_slug_char, slug_of-IsSlug,
}
use go_drive.Org.{Organization, OrgState, owner, member, remove_org}
use go_drive.Org.Laws.{Lacks, NotSlug, IsListed, remove_org_lem, remove_org-IsListed}

abbrev acme : Organization
acme = record { id = "o1"; name = "Acme"; slug = "acme"; role = owner }

abbrev home : Organization
home = record { id = "o2"; name = "Home"; slug = "home"; role = member }

abbrev at_home : OrgState
at_home = record { organizations = acme ∷ home ∷ []; current_org = some acme; stored = some "acme" }

remove_org_lem_example :
    Lacks "acme" (remove_org "acme" at_home).organizations
    × NotSlug "acme" (remove_org "acme" at_home).current_org
    × (IsListed (remove_org "acme" at_home)
        ⊎ ((remove_org "acme" at_home).current_org ≡ at_home.current_org))
remove_org_lem_example = remove_org_lem "acme" at_home

remove_org-IsListed_example : IsListed (remove_org "acme" at_home)
remove_org-IsListed_example = remove_org-IsListed "acme" at_home (inl refl)

removed_current : (remove_org "acme" at_home).current_org ≡ some home
unfolding remove_org
removed_current = refl

-- Lower case of three letters.
abbrev lower : String → String
lower String.[] = ""
lower (String.◌∷◌ c s) =
    String.◌∷◌
      (if leb 65 (code c) && leb (code c) 65
        then "a"
        else if leb 77 (code c) && leb (code c) 77
        then "m"
        else c)
      (lower s)

team_slug : slug_of lower "-My  Team! 1-" ≡ "my-eam-1"
unfolding slug_of dashed collapse drop_first drop_last is_dash is_slug_char
team_slug = refl

slug_of-IsSlug_example :
    IsSlug (slug_of lower "Acme & Co")
    × (IsSlug "Acme & Co"
        → lower "Acme & Co" ≡ "Acme & Co"
        → slug_of lower "Acme & Co" ≡ "Acme & Co")
slug_of-IsSlug_example = slug_of-IsSlug lower "Acme & Co"
