-- ===== src/Admin/Tests.antt =====
-- Concrete users and organizations; a number is printed as as many strokes.
use go_drive.Base.{
  ℕ, ◌≤◌, ◌<◌, ◌%◌, ◌+◌, ◌*◌, zero, suc, String, true, false, some, List, [], ◌∷◌, ◌≡◌, ◌↔◌, refl,
  inl, inr, ap, includes, Bool,
}
use go_drive.Stores.Form.{gb}
use go_drive.Admin.Listing.{filtered}
use go_drive.Admin.Users as Users
use go_drive.Admin.Users.{
  AdminUser, UsersPage, Parsed, fraction, act, acts, is_pending, open_quota, save_quota,
  set_user_quota, initial, toggle_admin,
}
use go_drive.Admin.Quota.{resave_quota, sent_limit}
use go_drive.Admin.Reach.{Reach, here, next, IsSafe, initial-IsSafe}

abbrev print : ℕ → String
print zero = ""
print (suc n) = String.◌∷◌ "|" (print n)

abbrev strokes : String → ℕ
strokes String.[] = 0
strokes (String.◌∷◌ c s) = suc (strokes s)

abbrev parse : String → Parsed
parse s = fraction (strokes s) 0

reread : (n : ℕ) → parse (print n) ≡ fraction n 0
reread zero = refl
reread (suc n) = ap more (reread n)
  where
    more : Parsed → Parsed
    more (fraction k d) = fraction (suc k) d
    more p = p

abbrev ana : AdminUser
ana = record {
  id = "u1";
  name = "ana";
  email = "ana@example.org";
  created_at = "2026-01-01";
  is_admin = false;
  org_count = 1;
  quota_limit = 3 * gb;
  quota_allocated = 0;
}

abbrev bob : AdminUser
bob = record ana { id = "u2"; name = "bob"; email = "bob@example.org"; quota_limit = 500000000 }

abbrev lower : String → String
lower s = s

found : filtered lower (λ u. u.name) (λ u. u.email) "bob" (ana ∷ bob ∷ []) ≡ bob ∷ []
unfolding filtered includes
found = refl

resave_quota_example :
    (save_quota parse print (open_quota parse print bob initial)
      ≡ some (set_user_quota "u2" (sent_limit bob)))
    × ((sent_limit bob ≡ 500000000) ↔ (500000000 % gb ≡ 0))
    × (2 * sent_limit bob ≤ 2 * 500000000 + gb)
    × (2 * 500000000 ≤ 2 * sent_limit bob + gb)
    × (2 * 500000000 < gb → sent_limit bob ≡ 0)
resave_quota_example = resave_quota parse print refl reread bob initial

abbrev clicks : List Users.Action
clicks = Users.load (ana ∷ bob ∷ []) ∷ Users.press_delete bob ∷ Users.confirm ∷ []

abbrev clicked : List Users.Action
clicked = Users.confirm ∷ Users.press_delete bob ∷ Users.load (ana ∷ bob ∷ []) ∷ []

deleting_bob : Reach lower parse print clicked (acts parse print initial clicks)
unfolding acts act filtered includes is_pending
deleting_bob =
    next
      (next (next here (Users.load (ana ∷ bob ∷ [])) tt) (Users.press_delete bob) (inr (inl refl)))
      Users.confirm refl

initial-IsSafe_example : IsSafe clicked (acts parse print initial clicks)
initial-IsSafe_example = initial-IsSafe lower parse print deleting_bob

abbrev date : String → String
date iso = iso

abbrev is_email : String → Bool
is_email s = true
