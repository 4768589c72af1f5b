-- ===== src/OrgPages/Members.antt =====
-- The page of an organization's members: web/src/pages/app/settings/SettingsMembersPage.tsx.
use Prim.Native.String
use go_drive.Base.{
  String, Bool, true, false, false, not, ◌&&◌, ◌||◌, Option, none, some, List, [], ◌∷◌, or_text,
  truthy, trim, is_blank, if◌then◌else◌, ◌==◌,
}
use go_drive.Api.{Outcome, resolved, rejected}
use go_drive.Api.Calls.{text, Call}

-- The part of OrgDetailsData that the page reads.
pub record Member : Type 0 where
  pub id : String
  pub user_id : String
  pub name : String
  pub email : String
  pub role : String

pub record Details : Type 0 where
  pub members : List Member
  pub your_role : String

pub record MembersPage : Type 0 where
  pub add_open : Bool
  pub user_id : String
  pub new_role : String

abbrev pub initial : MembersPage
initial = record { add_open = false; user_id = ""; new_role = "member" }

-- The arguments of the three mutations.
pub data MemberRequest : Type 0 where
  add : String → String → MemberRequest
  remove : String → MemberRequest
  change : String → String → MemberRequest

abbrev members_path : String → String
members_path slug = String.◌++◌ (String.◌++◌ "/api/orgs/" slug) "/members"

abbrev member_path : String → String → String
member_path slug id = String.◌++◌ (String.◌++◌ (members_path slug) "/") id

unfoldable pub call_of : String → MemberRequest → Call
call_of slug (add id role) = record {
  path = members_path slug;
  method = "POST";
  body = ("user_id", text id) ∷ ("role", text role) ∷ [];
}
call_of slug (remove id) = record { path = member_path slug id; method = "DELETE"; body = [] }
call_of slug (change id role) = record {
  path = member_path slug id;
  method = "PATCH";
  body = ("role", text role) ∷ [];
}

-- `onSuccess`: the organization is reloaded, and the dialog starts anew after an addition.
unfoldable pub on_success : MemberRequest → MembersPage → MembersPage
on_success (add id role) s = record s { add_open = false; user_id = ""; new_role = "member" }
on_success (remove id) s = s
on_success (change id role) s = s

unfoldable pub can_manage : Details → Bool
can_manage d = d.your_role == "owner" || d.your_role == "admin"

unfoldable pub can_change_roles : Details → Bool
can_change_roles d = d.your_role == "owner"

-- `roleLabel`.
unfoldable pub role_label : String → String
role_label role =
    if role == "owner"
    then "org.role.owner"
    else (if role == "admin" then "org.role.admin" else "org.role.member")

-- What one row shows, and the requests that its controls can make: a role of the list of two, with
-- the member's own when the list gives none, and the removal.
pub record Row : Type 0 where
  pub shown_name : String
  pub shown_email : Option String
  pub label : String
  pub role_choices : List MemberRequest
  pub removal : Option MemberRequest

-- `v ?? member.role`.
abbrev chosen_role : Option String → Member → String
chosen_role none m = m.role
chosen_role (some v) m = v

unfoldable pub change_role : Option String → Member → MemberRequest
change_role v m = change m.user_id (chosen_role v m)

unfoldable pub row_of : Details → Member → Row
unfolding can_manage can_change_roles
row_of d m = record {
  shown_name = or_text m.name m.user_id;
  shown_email = if truthy m.email then some m.email else none;
  label = role_label m.role;
  role_choices =
      if can_change_roles d && not (m.role == "owner")
      then change_role (some "admin") m ∷ change_role (some "member") m ∷ change_role none m ∷ []
      else [];
  removal = if can_manage d && not (m.role == "owner") then some (remove m.user_id) else none;
}

-- The dialog of an addition: `onOpenChange`, the Cancel button, the choice of a role, and the button
-- that saves, `disabled={!userId.trim() || addMember.isPending}`.
unfoldable pub close_dialog : MembersPage → MembersPage
close_dialog s = record s { add_open = false; user_id = ""; new_role = "member" }

unfoldable pub cancel : MembersPage → MembersPage
cancel s = record s { add_open = false }

-- `v ?? 'member'`.
unfoldable pub choose_role : Option String → MembersPage → MembersPage
choose_role none s = record s { new_role = "member" }
choose_role (some v) s = record s { new_role = v }

unfoldable pub save_enabled : Bool → MembersPage → Bool
save_enabled pending s = not (is_blank s.user_id || pending)

unfoldable pub add_request : MembersPage → MemberRequest
add_request s = add (trim s.user_id) s.new_role

-- The two items of the lists of roles.
pub data RoleItem : Type 0 where
  admin_item member_item : RoleItem

abbrev pub item_value : RoleItem → String
item_value admin_item = "admin"
item_value member_item = "member"

abbrev value_of : Option RoleItem → Option String
value_of none = none
value_of (some i) = some (item_value i)

-- What the visitor does in the dialog, and the answers to requests.
pub data Action : Type 0 where
  press_add press_cancel dismiss : Action
  type_user_id : String → Action
  choose : Option RoleItem → Action
  answered : MemberRequest → Outcome (Unit {0}) → Action

unfoldable pub act : MembersPage → Action → MembersPage
unfolding close_dialog cancel choose_role on_success
act s press_add = record s { add_open = true }
act s press_cancel = cancel s
act s dismiss = close_dialog s
act s (type_user_id value) = record s { user_id = value }
act s (choose item) = choose_role (value_of item) s
act s (answered r (resolved d)) = on_success r s
act s (answered r (rejected e)) = s

unfoldable pub acts : MembersPage → List Action → MembersPage
acts s [] = s
acts s (a ∷ as') = acts (act s a) as'
