-- ===== src/OrgPages/Permits.antt =====
-- What the server permits on an organization's members, and what the page offers: AddMember,
-- RemoveMember and UpdateMemberRole of server/internal/handler/org.go, and SettingsMembersPage.tsx.
use go_drive.Base.{
  String, Bool, true, false, not, ◌&&◌, ◌||◌, Option, none, some, List, [], ◌∷◌, ◌++◌, is_blank,
  is_blank-trim, trim, if◌then◌else◌, ◌==◌, ◌≡◌, refl, sym, ◌∙◌, ◌⊎◌, inl, inr, All, In, DistinctBy,
  key-injective, Bool-cases, eq_iff, arith, or_text, ne→false, All-In, ap, false→ne, All-append,
}
use go_drive.Api.{resolved, rejected}
use go_drive.OrgPages.Members as Members
use go_drive.OrgPages.Members.{
  Member, Details, MembersPage, initial, MemberRequest, add, remove, change, can_manage,
  can_change_roles, change_role, row_of, add_request, save_enabled, Action, acts, act,
}

-- The message of the refusal, if there is one, for the caller's identifier and role.
abbrev is_manager : String → Bool
is_manager role = role == "owner" || role == "admin"

abbrev is_grantable : String → Bool
is_grantable role = role == "member" || role == "admin"

-- AddMember, to which no role is the member's.
abbrev refuse_add : String → String → String → Option String
refuse_add role id new_role =
    if not (is_manager role)
    then some "only owners and admins can add members"
    else (if id == ""
        then some "user_id is required"
        else (if not (is_grantable (or_text new_role "member"))
            then some "role must be member or admin"
            else none))

-- RemoveMember.
abbrev refuse_remove : String → String → String → Option String
refuse_remove caller role id =
    if not (is_manager role)
    then some "only owners and admins can remove members"
    else (if id == caller && role == "owner" then some "owner cannot remove themselves" else none)

-- UpdateMemberRole.
abbrev refuse_change : String → String → Option String
refuse_change role new_role =
    if not (role == "owner")
    then some "only the owner can change roles"
    else (if new_role == ""
        then some "role is required"
        else (if not (is_grantable new_role) then some "role must be member or admin" else none))

unfoldable pub refusal : String → String → MemberRequest → Option String
refusal caller role (add id new_role) = refuse_add role id new_role
refusal caller role (remove id) = refuse_remove caller role id
refusal caller role (change id new_role) = refuse_change role new_role

-- A role that the server gives.
abbrev pub IsRole : String → Type 0
IsRole r = (r ≡ "owner") ⊎ (r ≡ "admin") ⊎ (r ≡ "member")

abbrev offered_removal : Option MemberRequest → List MemberRequest
offered_removal none = []
offered_removal (some r) = r ∷ []

-- All requests of a row's controls.
abbrev pub offers : Details → Member → List MemberRequest
offers d m = (row_of d m).role_choices ++ offered_removal (row_of d m).removal

abbrev IsPermitted : String → Details → MemberRequest → Type 0
IsPermitted caller d r = refusal caller d.your_role r ≡ none

-- The role in the dialog is one of the two that can be given.
abbrev IsItem : String → Type 0
IsItem r = (r ≡ "admin") ⊎ (r ≡ "member")

act-IsItem : (s : MembersPage) (a : Action) → IsItem s.new_role → IsItem (act s a).new_role
unfolding act
act-IsItem s Members.press_add h = h
act-IsItem s Members.press_cancel h = h
act-IsItem s Members.dismiss h = inr refl
act-IsItem s (Members.type_user_id value) h = h
act-IsItem s (Members.choose none) h = inr refl
act-IsItem s (Members.choose (some Members.admin_item)) h = inl refl
act-IsItem s (Members.choose (some Members.member_item)) h = inr refl
act-IsItem s (Members.answered (add id r) (resolved d)) h = inr refl
act-IsItem s (Members.answered (remove id) (resolved d)) h = h
act-IsItem s (Members.answered (change id r) (resolved d)) h = h
act-IsItem s (Members.answered r (rejected e)) h = h

acts-IsItem :
    (s : MembersPage) (as' : List Action) → IsItem s.new_role → IsItem (acts s as').new_role
unfolding acts
acts-IsItem s [] h = h
acts-IsItem s (a ∷ as') h = acts-IsItem (act s a) as' (act-IsItem s a h)

-- A role other than the owner's is one that can be given.
not_owner : (r : String) → IsRole r → (r == "owner") ≡ false → IsItem r
not_owner r (inl e) n = absurd (false→ne r "owner" n e)
not_owner r (inr h) n = h

trimmed : (s : String) → is_blank s ≡ false → (trim s == "") ≡ false
unfolding is_blank
trimmed s h = ne→false (trim s) "" (λ e. cc (is_blank-trim s, ap is_blank e))

module _ (caller : String) (d : Details) where
  change-IsPermitted :
      (m : Member) (r : String)
      → IsItem r
      → can_change_roles d ≡ true
      → IsPermitted caller d (change m.user_id r)
  unfolding refusal can_change_roles
  change-IsPermitted m r (inl e) h = rw (h, e) refl
  change-IsPermitted m r (inr e) h = rw (h, e) refl

  -- The button for an addition is there for managers alone.
  add-IsPermitted :
      (s : MembersPage) (pending : Bool)
      → IsItem s.new_role
      → can_manage d ≡ true
      → save_enabled pending s ≡ true
      → IsPermitted caller d (add_request s)
  unfolding refusal can_manage save_enabled add_request
  add-IsPermitted s pending r h e =
      let filled : is_blank s.user_id ≡ false = ground arith in
      rw (h, trimmed s.user_id filled, granted s.new_role r) refl
    where
      granted : (r : String) → IsItem r → is_grantable (or_text r "member") ≡ true
      granted r (inl e) = rw e refl
      granted r (inr e) = rw e refl

module _ (d : Details) (me : Member) (distinct : DistinctBy (λ m. m.user_id) d.members)
    (listed : In me d.members) (role : me.role ≡ d.your_role)
    (roles : All (λ m. IsRole m.role) d.members) where
  removal-IsPermitted :
      (m : Member)
      → In m d.members
      → (m.role == "owner") ≡ false
      → can_manage d ≡ true
      → IsPermitted me.user_id d (remove m.user_id)
  unfolding refusal can_manage
  removal-IsPermitted m i n h = elim (Bool-cases (m.user_id == me.user_id)) [
    | inl same ↦
        let e =
          key-injective (λ m. m.user_id) m me d.members distinct i listed
            ((eq_iff m.user_id me.user_id).0 same) in
        let no : (d.your_role == "owner") ≡ false =
          ap (λ r. r == "owner") (sym role ∙ sym (ap (λ x. x.role) e)) ∙ n in
        rw (h, same, no) refl
    | inr other ↦ rw (h, other) refl
  ]

  choices-IsPermitted :
      (m : Member) → In m d.members → All (IsPermitted me.user_id d) (row_of d m).role_choices
  unfolding row_of change_role
  choices-IsPermitted m i = elim (Bool-cases (can_change_roles d && not (m.role == "owner"))) [
    | inl y ↦
        let h : can_change_roles d ≡ true = ground arith in
        let n : (m.role == "owner") ≡ false = ground arith in
        let own = not_owner m.role (All-In (λ m. IsRole m.role) m d.members roles i) n in
        rw y (
          change-IsPermitted me.user_id d m "admin" (inl refl) h,
          (
            change-IsPermitted me.user_id d m "member" (inr refl) h,
            (change-IsPermitted me.user_id d m m.role own h, tt),
          ),
        )
    | inr n ↦ rw n tt
  ]

  removals-IsPermitted :
      (m : Member)
      → In m d.members
      → All (IsPermitted me.user_id d) (offered_removal (row_of d m).removal)
  unfolding row_of
  removals-IsPermitted m i = elim (Bool-cases (can_manage d && not (m.role == "owner"))) [
    | inl y ↦
        let h : can_manage d ≡ true = ground arith in
        let n : (m.role == "owner") ≡ false = ground arith in rw y (removal-IsPermitted m i n h, tt)
    | inr n ↦ rw n tt
  ]

  -- If the visitor is one of the members listed, each once and with one of the three roles, the server
  -- refuses none of what the page offers for lack of permission: no removal and no role of any row,
  -- nor, for those who see the button, an addition, whatever was done in its dialog before.
  pub offers-IsPermitted :
      ((m : Member) → In m d.members → All (IsPermitted me.user_id d) (offers d m))
      × ((as' : List Action) (pending : Bool)
          → can_manage d ≡ true
          → save_enabled pending (acts initial as') ≡ true
          → IsPermitted me.user_id d (add_request (acts initial as')))
  offers-IsPermitted = (
    λ m i.
        All-append _ (row_of d m).role_choices _ (choices-IsPermitted m i)
          (removals-IsPermitted m i),
    λ as' pending h e.
        add-IsPermitted me.user_id d (acts initial as') pending (acts-IsItem initial as' (inr refl))
          h e,
  )
