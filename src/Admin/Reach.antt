-- ===== src/Admin/Reach.antt =====
-- Whom the requests of the page of the users are about: web/src/pages/admin/users.tsx.
use go_drive.Base.{
  ℕ, String, Bool, false, Option, none, some, List, [], ◌∷◌, ◌≡◌, refl, In, All, inl, inr,
  filter-In, Bool-cases, filter,
}
use go_drive.Api.{Outcome, resolved, rejected}
use go_drive.Admin.Listing.{filtered}
use go_drive.Admin.Users as Users
use go_drive.Admin.Users.{
  AdminUser, UsersPage, UserRequest, toggle_admin, delete_user, create_user, update_user,
  set_user_quota, Parsed, Action, act, send, settled, on_success, on_user, save_for, initial,
  open_quota, submit_create, submit_edit, confirm_delete, save_quota, is_pending, toggling,
  deleting, creating, updating, limiting,
}

-- The rows of the table.
abbrev pub listed : (String → String) → UsersPage → List AdminUser
listed lower s = filtered lower (λ u. u.name) (λ u. u.email) s.search s.users

-- What can happen in a state: the buttons of rows that the table shows, a button whose mutation is not
-- pending, and answers to requests that wait for one.
abbrev pub May : (String → String) → UsersPage → Action → Type 0
May lower s (Users.press_toggle u) = In u (listed lower s) × (is_pending toggling s ≡ false)
May lower s (Users.press_edit u) = In u (listed lower s)
May lower s (Users.press_delete u) = In u (listed lower s)
May lower s (Users.press_quota u) = In u (listed lower s)
May lower s (Users.create name email password checked) = is_pending creating s ≡ false
May lower s (Users.edit name email password) = is_pending updating s ≡ false
May lower s Users.save_limit = is_pending limiting s ≡ false
May lower s Users.confirm = is_pending deleting s ≡ false
May lower s (Users.answered r o) = In r s.pending
May lower s _ = Unit

-- Among what happened there was a button of the user's row, and an answer of the server that listed
-- the user; what happened last stands first.
abbrev pub Chosen : (AdminUser → Action) → List Action → AdminUser → Type 0
Chosen button past u =
    In (button u) past × (us : List AdminUser) × In (Users.load us) past × In u us

-- A user with the identifier was chosen.
abbrev pub ChosenId : (AdminUser → Action) → List Action → String → Type 0
ChosenId button past id = (u : AdminUser) × (u.id ≡ id) × Chosen button past u

-- A request about a user names one whose button of that kind was pressed.
abbrev pub Names : List Action → UserRequest → Type 0
Names past (toggle_admin u) = Chosen Users.press_toggle past u
Names past (delete_user id) = ChosenId Users.press_delete past id
Names past (create_user d) = Unit
Names past (update_user id d) = ChosenId Users.press_edit past id
Names past (set_user_quota id limit) = ChosenId Users.press_quota past id

abbrev pub OnTarget : (AdminUser → Action) → List Action → Option AdminUser → Type 0
OnTarget button past none = Unit
OnTarget button past (some u) = Chosen button past u

-- Each user of the table was in an answer of the server.
abbrev pub Loaded : List Action → List AdminUser → Type 0
Loaded past users =
    (u : AdminUser) → In u users → (us : List AdminUser) × In (Users.load us) past × In u us

abbrev pub IsSafe : List Action → UsersPage → Type 0
IsSafe past s =
    Loaded past s.users
    × OnTarget Users.press_edit past s.edit_target
    × OnTarget Users.press_quota past s.quota_target
    × OnTarget Users.press_delete past s.delete_target
    × All (Names past) s.pending

Chosen-later :
    (button : AdminUser → Action) (a : Action) (past : List Action) (u : AdminUser)
    → Chosen button past u
    → Chosen button (a ∷ past) u
Chosen-later button a past u (pressed, us, load, i) = (inr pressed, us, inr load, i)

OnTarget-later :
    (button : AdminUser → Action) (a : Action) (past : List Action) (t : Option AdminUser)
    → OnTarget button past t
    → OnTarget button (a ∷ past) t
OnTarget-later button a past none h = tt
OnTarget-later button a past (some u) h = Chosen-later button a past u h

ChosenId-later :
    (button : AdminUser → Action) (a : Action) (past : List Action) (id : String)
    → ChosenId button past id
    → ChosenId button (a ∷ past) id
ChosenId-later button a past id (u, e, c) = (u, e, Chosen-later button a past u c)

Names-later :
    (a : Action) (past : List Action) (r : UserRequest) → Names past r → Names (a ∷ past) r
Names-later a past (toggle_admin u) h = Chosen-later Users.press_toggle a past u h
Names-later a past (delete_user id) h = ChosenId-later Users.press_delete a past id h
Names-later a past (create_user d) h = tt
Names-later a past (update_user id d) h = ChosenId-later Users.press_edit a past id h
Names-later a past (set_user_quota id limit) h = ChosenId-later Users.press_quota a past id h

pending-later :
    (a : Action) (past : List Action) (rs : List UserRequest)
    → All (Names past) rs
    → All (Names (a ∷ past)) rs
pending-later a past [] h = tt
pending-later a past (r ∷ rs) h = (Names-later a past r h.0, pending-later a past rs h.1)

Loaded-later :
    (a : Action) (past : List Action) (us : List AdminUser) → Loaded past us → Loaded (a ∷ past) us
Loaded-later a past us h u i = let (vs, load, j) = h u i in (vs, inr load, j)

IsSafe-later :
    (a : Action) (past : List Action) (s : UsersPage) → IsSafe past s → IsSafe (a ∷ past) s
IsSafe-later a past s h = (
  Loaded-later a past s.users h.0,
  OnTarget-later Users.press_edit a past s.edit_target h.1,
  OnTarget-later Users.press_quota a past s.quota_target h.2,
  OnTarget-later Users.press_delete a past s.delete_target h.3,
  pending-later a past s.pending h.4,
)

module _ (lower : String → String) (parse : String → Parsed) (print : ℕ → String) where
  -- The page after what happened on it, the last first.
  pub data Reach : List Action → UsersPage → Type 0 where
    here : Reach [] initial
    next :
        {past : List Action} {t : UsersPage}
        → Reach past t
        → (a : Action) → May lower t a
        → Reach (a ∷ past) (act parse print t a)

module _ (past : List Action) where
  IsNamed : Option UserRequest → Type 0
  IsNamed none = Unit
  IsNamed (some r) = Names past r

  send-IsSafe :
      (r : Option UserRequest) (s : UsersPage) → IsNamed r → IsSafe past s → IsSafe past (send r s)
  unfolding IsNamed
  send-IsSafe none s n h = h
  send-IsSafe (some r) s n h = (h.0, h.1, h.2, h.3, (n, h.4))

  on_user-IsNamed :
      (button : AdminUser → Action) (t : Option AdminUser) (f : AdminUser → UserRequest)
      → OnTarget button past t
      → ((u : AdminUser) → Chosen button past u → Names past (f u))
      → IsNamed (on_user t f)
  unfolding IsNamed
  on_user-IsNamed button none f h g = tt
  on_user-IsNamed button (some u) f h g = g u h

  save_for-IsNamed :
      (t : Option AdminUser) (p : Parsed)
      → OnTarget Users.press_quota past t
      → IsNamed (save_for t p)
  unfolding IsNamed
  save_for-IsNamed none p h = tt
  save_for-IsNamed (some u) Users.not_finite h = tt
  save_for-IsNamed (some u) Users.negative h = tt
  save_for-IsNamed (some u) (Users.fraction n d) h = (u, refl, h)

  All-filter :
      (p : UserRequest → Bool) (rs : List UserRequest)
      → All (Names past) rs
      → All (Names past) (filter p rs)
  All-filter p [] h = tt
  All-filter p (r ∷ rs) h = elim (Bool-cases (p r)) [
    | inl y ↦ rw y (h.0, All-filter p rs h.1)
    | inr n ↦ rw n (All-filter p rs h.1)
  ]

  on_success-IsSafe :
      (r : UserRequest) (s : UsersPage) → IsSafe past s → IsSafe past (on_success r s)
  unfolding on_success
  on_success-IsSafe (toggle_admin u) s h = h
  on_success-IsSafe (delete_user id) s h = (h.0, h.1, h.2, tt, h.4)
  on_success-IsSafe (create_user d) s h = (h.0, h.1, h.2, h.3, h.4)
  on_success-IsSafe (update_user id d) s h = (h.0, tt, h.2, h.3, h.4)
  on_success-IsSafe (set_user_quota id limit) s h = (h.0, h.1, tt, h.3, h.4)

  settled-IsSafe :
      (r : UserRequest) (o : Outcome (Unit {0})) (s : UsersPage)
      → IsSafe past s
      → IsSafe past (settled r o s)
  unfolding settled
  settled-IsSafe r (resolved d) s h =
      on_success-IsSafe r _ (h.0, h.1, h.2, h.3, All-filter _ s.pending h.4)
  settled-IsSafe r (rejected e) s h = (h.0, h.1, h.2, h.3, All-filter _ s.pending h.4)

module _ (lower : String → String) (parse : String → Parsed) (print : ℕ → String) where
  -- A row whose button is pressed now is of a user that the server has listed.
  pressed :
      (button : AdminUser → Action) (past : List Action) (s : UsersPage) (u : AdminUser)
      → Loaded past s.users
      → In u (listed lower s)
      → Chosen button (button u ∷ past) u
  unfolding filtered
  pressed button past s u h i =
      let (us, load, j) = h u (filter-In _ u s.users i).0 in (inl refl, us, inr load, j)

  act-IsSafe :
      (past : List Action) (s : UsersPage) (a : Action)
      → May lower s a
      → IsSafe past s
      → IsSafe (a ∷ past) (act parse print s a)
  unfolding act open_quota submit_create submit_edit confirm_delete save_quota IsNamed
  act-IsSafe past s (Users.load us) m h =
      let k = IsSafe-later (Users.load us) past s h in
      (λ u i. (us, inl refl, i), k.1, k.2, k.3, k.4)
  act-IsSafe past s (Users.press_toggle u) m h =
      send-IsSafe (Users.press_toggle u ∷ past) (some (toggle_admin u)) s
        (pressed Users.press_toggle past s u h.0 m.0) (IsSafe-later (Users.press_toggle u) past s h)
  act-IsSafe past s (Users.press_edit u) m h =
      let k = IsSafe-later (Users.press_edit u) past s h in
      (k.0, pressed Users.press_edit past s u h.0 m, k.2, k.3, k.4)
  act-IsSafe past s (Users.press_delete u) m h =
      let k = IsSafe-later (Users.press_delete u) past s h in
      (k.0, k.1, k.2, pressed Users.press_delete past s u h.0 m, k.4)
  act-IsSafe past s (Users.press_quota u) m h =
      let k = IsSafe-later (Users.press_quota u) past s h in
      (k.0, k.1, pressed Users.press_quota past s u h.0 m, k.3, k.4)
  act-IsSafe past s (Users.create name email password checked) m h =
      send-IsSafe (Users.create name email password checked ∷ past)
        (some (submit_create name email password checked)) s tt
        (IsSafe-later (Users.create name email password checked) past s h)
  act-IsSafe past s (Users.edit name email password) m h =
      let k = IsSafe-later (Users.edit name email password) past s h in
      send-IsSafe (Users.edit name email password ∷ past) (submit_edit name email password s) s
        (on_user-IsNamed (Users.edit name email password ∷ past) Users.press_edit s.edit_target _
          k.1 (λ u c. (u, refl, c)))
        k
  act-IsSafe past s Users.save_limit m h =
      let k = IsSafe-later Users.save_limit past s h in
      send-IsSafe (Users.save_limit ∷ past) (save_quota parse print s) s
        (save_for-IsNamed (Users.save_limit ∷ past) s.quota_target _ k.2) k
  act-IsSafe past s Users.confirm m h =
      let k = IsSafe-later Users.confirm past s h in
      send-IsSafe (Users.confirm ∷ past) (confirm_delete s) s
        (on_user-IsNamed (Users.confirm ∷ past) Users.press_delete s.delete_target _ k.3
          (λ u c. (u, refl, c)))
        k
  act-IsSafe past s Users.close_edit m h =
      let k = IsSafe-later Users.close_edit past s h in (k.0, tt, k.2, k.3, k.4)
  act-IsSafe past s Users.close_quota m h =
      let k = IsSafe-later Users.close_quota past s h in (k.0, k.1, tt, k.3, k.4)
  act-IsSafe past s Users.close_delete m h =
      let k = IsSafe-later Users.close_delete past s h in (k.0, k.1, k.2, tt, k.4)
  act-IsSafe past s (Users.answered r o) m h =
      settled-IsSafe (Users.answered r o ∷ past) r o s (IsSafe-later (Users.answered r o) past s h)
  act-IsSafe past s (Users.type_search v) m h = IsSafe-later (Users.type_search v) past s h
  act-IsSafe past s Users.press_add m h = IsSafe-later Users.press_add past s h
  act-IsSafe past s (Users.type_quota v) m h = IsSafe-later (Users.type_quota v) past s h
  act-IsSafe past s Users.close_create m h = IsSafe-later Users.close_create past s h

  -- Whatever the visitor does and in whatever order the answers come, each request that waits for an
  -- answer and deletes, changes or limits a user, or gives or takes the admin flag, names a user on
  -- whose row the button for just that was pressed, and whom an answer of the server had listed; and
  -- so do the targets of the three dialogs.
  pub initial-IsSafe :
      {past : List Action} {t : UsersPage} → Reach lower parse print past t → IsSafe past t
  initial-IsSafe here = (λ u i. absurd i, tt, tt, tt, tt)
  initial-IsSafe (next {past} {t} r a m) = act-IsSafe past t a m (initial-IsSafe r)
