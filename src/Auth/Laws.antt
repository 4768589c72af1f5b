-- ===== src/Auth/Laws.antt =====
-- What the operations of web/src/store/auth.ts keep.
use go_drive.Base.{◌≡◌, ◌↔◌, refl, sym, Option, none, some, arith, false, String, ◌∙◌}
use go_drive.Api.{resolved}
use go_drive.Auth.{User, Auth, AuthulaResponse, admin_of, set_user, set_token, session_of, sign_out}

-- The flag that opens the admin pages is the user's.
abbrev pub IsConsistent : Auth → Type 0
IsConsistent s = s.is_admin ≡ admin_of s.user

set_user-IsConsistent : (u : Option User) (s : Auth) → IsConsistent (set_user u s)
unfolding set_user
set_user-IsConsistent u s = refl

set_token-IsConsistent :
    (t : Option String) (s : Auth) → IsConsistent s → IsConsistent (set_token t s)
unfolding set_token
set_token-IsConsistent t s h = h

session_of-IsConsistent :
    (r : Option AuthulaResponse) (s : Auth) → session_of r ≡ resolved s → IsConsistent s
unfolding session_of
session_of-IsConsistent none s h = cc
session_of-IsConsistent (some r) s h = ground arith

-- After signing out of a consistent store, the admin flag agrees with the (absent) user exactly
-- when it was not set before: an administrator who signs out leaves it set.
pub sign_out-IsConsistent_iff :
    (s : Auth) → IsConsistent s → IsConsistent (sign_out s) ↔ (admin_of s.user ≡ false)
unfolding sign_out
sign_out-IsConsistent_iff s h = (λ k. sym h ∙ k, λ k. h ∙ k)
