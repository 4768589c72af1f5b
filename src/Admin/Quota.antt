-- ===== src/Admin/Quota.antt =====
-- The quota dialog of web/src/pages/admin/users.tsx: what it sends for a limit that nobody changed.
use go_drive.Base.{
  false, ℕ, ◌+◌, ◌*◌, ◌%◌, ◌<◌, ◌≤◌, String, some, ◌≡◌, refl, ◌↔◌, arith, ltb, Bool-cases, inl, inr,
}
use go_drive.Stores.Form.{gb, rounded_gb}
use go_drive.Admin.Users.{
  AdminUser, UsersPage, set_user_quota, Parsed, fraction, bytes_of, open_quota, save_quota,
}

bytes_of_whole : (n : ℕ) → bytes_of n 0 ≡ n * gb
unfolding bytes_of
bytes_of_whole n = omega arith

-- The limit that is sent: the one on show, rounded to whole gigabytes.
abbrev pub sent_limit : AdminUser → ℕ
sent_limit u = rounded_gb u.quota_limit * gb

none_sent : (n : ℕ) → ltb 0 n ≡ false → rounded_gb n ≡ 0
unfolding rounded_gb
none_sent n h = ground arith

module _ (parse : String → Parsed) (print : ℕ → String) (reads_empty : parse "" ≡ fraction 0 0)
    (reads_whole : (n : ℕ) → parse (print n) ≡ fraction n 0) where
  resave :
      (u : AdminUser) (s : UsersPage)
      → save_quota parse print (open_quota parse print u s)
        ≡ some (set_user_quota u.id (sent_limit u))
  unfolding open_quota save_quota
  resave u s = elim (Bool-cases (ltb 0 u.quota_limit)) [
    | inl set ↦
        rw (set, reads_whole (rounded_gb u.quota_limit), bytes_of_whole (rounded_gb u.quota_limit))
          refl
    | inr unset ↦ rw (unset, reads_empty, bytes_of_whole 0, none_sent u.quota_limit unset) refl
  ]

  -- If a number's digits are read as that number and no text as zero, saving the quota dialog of a
  -- user as it opens sends a limit for that user. It is the user's own exactly when that is a whole
  -- number of gigabytes, is off by half a gigabyte at most, and is zero, which stands for no limit,
  -- for every limit below half a gigabyte.
  pub resave_quota :
      (u : AdminUser) (s : UsersPage)
      → (save_quota parse print (open_quota parse print u s)
          ≡ some (set_user_quota u.id (sent_limit u)))
        × ((sent_limit u ≡ u.quota_limit) ↔ (u.quota_limit % gb ≡ 0))
        × (2 * sent_limit u ≤ 2 * u.quota_limit + gb)
        × (2 * u.quota_limit ≤ 2 * sent_limit u + gb)
        × (2 * u.quota_limit < gb → sent_limit u ≡ 0)
  unfolding rounded_gb
  resave_quota u s =
      let e = resave u s in
      (e, (λ h. omega arith, λ h. omega arith), omega arith, omega arith, λ h. omega arith)
