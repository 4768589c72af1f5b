-- ===== src/OrgPages/Tests.antt =====
-- A concrete organization with an owner, an administrator and a member.
use go_drive.Base.{
  String, Bool, true, none, List, [], ◌∷◌, ◌≡◌, refl, inl, inr, In, All, distinct-DistinctBy,
}
use go_drive.Api.{object, Response}
use go_drive.Org.{OrgState, owner}
use go_drive.OrgPages.Members as Members
use go_drive.OrgPages.Members.{
  Member, Details, acts, initial, can_manage, save_enabled, add_request,
}
use go_drive.OrgPages.Permits.{refusal, offers, offers-IsPermitted}

abbrev ada : Member
ada = record { id = "m1"; user_id = "u1"; name = "ada"; email = "ada@example.org"; role = "owner" }

abbrev ben : Member
ben = record { id = "m2"; user_id = "u2"; name = "ben"; email = ""; role = "admin" }

abbrev cy : Member
cy = record { id = "m3"; user_id = "u3"; name = ""; email = ""; role = "member" }

abbrev acme : Details
acme = record { members = ada ∷ ben ∷ cy ∷ []; your_role = "admin" }

offers-IsPermitted_example :
    ((m : Member) → In m acme.members → All (λ r. refusal "u2" "admin" r ≡ none) (offers acme m))
    × ((as' : List Members.Action) (pending : Bool)
        → can_manage acme ≡ true
        → save_enabled pending (acts initial as') ≡ true
        → refusal "u2" "admin" (add_request (acts initial as')) ≡ none)
offers-IsPermitted_example =
    offers-IsPermitted acme ben (distinct-DistinctBy (λ m. m.user_id) acme.members refl)
      (inr (inl refl)) refl (inl refl, (inr (inl refl), (inr (inr refl), tt)))

abbrev mine : OrgState
mine = record {
  organizations = record { id = "o1"; name = "Acme"; slug = "acme"; role = owner } ∷ [];
  current_org = none;
  stored = none;
}

abbrev gone : Response String
gone = record { status = 200; body = object none none }
