-- ===== src/Admin/Users.antt =====
-- The page of the users: the state, the handlers and the requests of
-- web/src/pages/admin/users.tsx.
use Prim.Native.String
use go_drive.Base.{
  ℕ, ◌+◌, ◌*◌, ◌/◌, String, Bool, true, false, not, Option, none, some, List, [], ◌∷◌, truthy,
  if◌then◌else◌, ltb, any, filter,
}
use go_drive.Api.{Outcome, resolved, rejected}
use go_drive.Api.Calls.{Json, text, number, bool, Call}
use go_drive.Stores.Form.{gb, rounded_gb}

pub record AdminUser : Type 0 where
  pub id : String
  pub name : String
  pub email : String
  pub created_at : String
  pub is_admin : Bool
  pub org_count : ℕ
  pub quota_limit : ℕ
  pub quota_allocated : ℕ

-- What the form of a new user and that of an edit hold; an empty password is not sent.
pub record NewUser : Type 0 where
  pub name : String
  pub email : String
  pub password : String
  pub is_admin : Bool

pub record UserEdit : Type 0 where
  pub name : String
  pub email : String
  pub password : Option String

-- The arguments of the five mutations.
pub data UserRequest : Type 0 where
  toggle_admin : AdminUser → UserRequest
  delete_user : String → UserRequest
  create_user : NewUser → UserRequest
  update_user : String → UserEdit → UserRequest
  set_user_quota : String → ℕ → UserRequest

abbrev user_path : String → String
user_path id = String.◌++◌ "/api/admin/users/" id

abbrev password_field : Option String → List (String × Json)
password_field none = []
password_field (some p) = ("password", text p) ∷ []

unfoldable pub call_of : UserRequest → Call
call_of (toggle_admin u) = record {
  path = user_path u.id;
  method = "PATCH";
  body = ("is_admin", bool (not u.is_admin)) ∷ [];
}
call_of (delete_user id) = record { path = user_path id; method = "DELETE"; body = [] }
call_of (create_user d) = record {
  path = "/api/admin/users";
  method = "POST";
  body =
      ("name", text d.name)
      ∷ ("email", text d.email)
      ∷ ("password", text d.password)
      ∷ ("is_admin", bool d.is_admin)
      ∷ [];
}
call_of (update_user id d) = record {
  path = user_path id;
  method = "PATCH";
  body = ("name", text d.name) ∷ ("email", text d.email) ∷ password_field d.password;
}
call_of (set_user_quota id limit) = record {
  path = String.◌++◌ (user_path id) "/limit";
  method = "PATCH";
  body = ("limit", number limit) ∷ [];
}

-- The page; `users` is the list that the query last gave, and `pending` holds the requests that
-- have no answer yet.
pub record UsersPage : Type 0 where
  pub users : List AdminUser
  pub search : String
  pub delete_target : Option AdminUser
  pub create_open : Bool
  pub edit_target : Option AdminUser
  pub quota_target : Option AdminUser
  pub quota_limit : String
  pub pending : List UserRequest

abbrev pub initial : UsersPage
initial = record {
  users = [];
  search = "";
  delete_target = none;
  create_open = false;
  edit_target = none;
  quota_target = none;
  quota_limit = "";
  pending = [];
}

-- What `Number` makes of a text: NaN or infinite, negative, or the fraction of a number and the
-- successor of another.
pub data Parsed : Type 0 where
  not_finite : Parsed
  negative : Parsed
  fraction : ℕ → ℕ → Parsed

-- `Math.round(gb * 1024 ** 3)`, exactly.
unfoldable pub bytes_of : ℕ → ℕ → ℕ
bytes_of n d = (2 * n * gb + (d + 1)) / (2 * (d + 1))

-- `onSuccess` of the five mutations; each reloads the list besides.
unfoldable pub on_success : UserRequest → UsersPage → UsersPage
on_success (toggle_admin u) s = s
on_success (delete_user id) s = record s { delete_target = none }
on_success (create_user d) s = record s { create_open = false }
on_success (update_user id d) s = record s { edit_target = none }
on_success (set_user_quota id limit) s = record s { quota_target = none; quota_limit = "" }

-- The mutations that a button waits for.
pub data Mutation : Type 0 where
  toggling deleting creating updating limiting : Mutation

abbrev of_mutation : Mutation → UserRequest → Bool
of_mutation toggling (toggle_admin _) = true
of_mutation deleting (delete_user _) = true
of_mutation creating (create_user _) = true
of_mutation updating (update_user _ _) = true
of_mutation limiting (set_user_quota _ _) = true
of_mutation _ _ = false

abbrev pub mutation_of : UserRequest → Mutation
mutation_of (toggle_admin _) = toggling
mutation_of (delete_user _) = deleting
mutation_of (create_user _) = creating
mutation_of (update_user _ _) = updating
mutation_of (set_user_quota _ _) = limiting

-- `isPending` of a mutation.
unfoldable pub is_pending : Mutation → UsersPage → Bool
is_pending m s = any (of_mutation m) s.pending

-- What a handler hands to a mutation, if anything.
abbrev pub on_user : Option AdminUser → (AdminUser → UserRequest) → Option UserRequest
on_user none f = none
on_user (some u) f = some (f u)

-- `onSubmit` of the two forms, with the texts of their fields.
unfoldable pub submit_create : String → String → String → Bool → UserRequest
submit_create name email password checked =
    create_user (record { name = name; email = email; password = password; is_admin = checked })

unfoldable pub edit_of : String → String → String → UserEdit
edit_of name email password = record {
  name = name;
  email = email;
  password = if truthy password then some password else none;
}

unfoldable pub submit_edit : String → String → String → UsersPage → Option UserRequest
submit_edit name email password s =
    on_user s.edit_target (λ u. update_user u.id (edit_of name email password))

abbrev pub quota_request : Parsed → String → Option UserRequest
quota_request not_finite id = none
quota_request negative id = none
quota_request (fraction n d) id = some (set_user_quota id (bytes_of n d))

abbrev pub save_for : Option AdminUser → Parsed → Option UserRequest
save_for none p = none
save_for (some u) p = quota_request p u.id

unfoldable pub confirm_delete : UsersPage → Option UserRequest
confirm_delete s = on_user s.delete_target (λ u. delete_user u.id)

abbrev pub send : Option UserRequest → UsersPage → UsersPage
send none s = s
send (some r) s = record s { pending = r ∷ s.pending }

-- The answer to a request: its mutation is no longer pending.
unfoldable pub settled {ℓ} : {T : Type ℓ} → UserRequest → Outcome T → UsersPage → UsersPage
unfolding on_success
settled r (resolved d) s =
    on_success r
      (record s { pending = filter (λ q. not (of_mutation (mutation_of r) q)) s.pending })
settled r (rejected e) s = record s {
  pending = filter (λ q. not (of_mutation (mutation_of r) q)) s.pending;
}

-- What the user does on the page, and the answers: of the query and of the mutations.
pub data Action : Type 0 where
  load : List AdminUser → Action
  type_search : String → Action
  press_add : Action
  press_toggle press_edit press_delete press_quota : AdminUser → Action
  create : String → String → String → Bool → Action
  edit : String → String → String → Action
  type_quota : String → Action
  save_limit confirm : Action
  close_create close_edit close_quota close_delete : Action
  answered : UserRequest → Outcome (Unit {0}) → Action

module _ (parse : String → Parsed) (print : ℕ → String) where
  -- The button beside a quota.
  unfoldable pub open_quota : AdminUser → UsersPage → UsersPage
  open_quota u s = record s {
    quota_target = some u;
    quota_limit = if ltb 0 u.quota_limit then print (rounded_gb u.quota_limit) else "";
  }

  -- The save button of the quota dialog.
  unfoldable pub save_quota : UsersPage → Option UserRequest
  save_quota s = save_for s.quota_target (parse s.quota_limit)

  unfoldable pub act : UsersPage → Action → UsersPage
  unfolding open_quota save_quota submit_create submit_edit confirm_delete settled
  act s (load us) = record s { users = us }
  act s (type_search value) = record s { search = value }
  act s press_add = record s { create_open = true }
  act s (press_toggle u) = send (some (toggle_admin u)) s
  act s (press_edit u) = record s { edit_target = some u }
  act s (press_delete u) = record s { delete_target = some u }
  act s (press_quota u) = open_quota u s
  act s (create name email password checked) =
      send (some (submit_create name email password checked)) s
  act s (edit name email password) = send (submit_edit name email password s) s
  act s (type_quota value) = record s { quota_limit = value }
  act s save_limit = send (save_quota s) s
  act s confirm = send (confirm_delete s) s
  act s close_create = record s { create_open = false }
  act s close_edit = record s { edit_target = none }
  act s close_quota = record s { quota_target = none }
  act s close_delete = record s { delete_target = none }
  act s (answered r o) = settled r o s

  unfoldable pub acts : UsersPage → List Action → UsersPage
  acts s [] = s
  acts s (a ∷ as') = acts (act s a) as'
