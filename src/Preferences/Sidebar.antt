-- ===== src/Preferences/Sidebar.antt =====
-- The folded sidebar: web/src/lib/useSidebarCollapsed.ts.
use go_drive.Base.{
  ℕ, zero, suc, String, Bool, true, false, not, Option, none, some, ◌==◌, if◌then◌else◌, ◌≡◌, refl,
}

-- `isCollapsed`, and the entry of the local storage.
pub record Sidebar : Type 0 where
  pub is_collapsed : Bool
  pub stored : Option String

-- `getItem(…) === '1'`.
abbrev is_one : Option String → Bool
is_one none = false
is_one (some s) = s == "1"

unfoldable pub load : Option String → Sidebar
load stored = record { is_collapsed = is_one stored; stored = stored }

abbrev pub digit : Bool → String
digit b = if b then "1" else "0"

unfoldable pub toggle_collapsed : Sidebar → Sidebar
toggle_collapsed s = record {
  is_collapsed = not s.is_collapsed;
  stored = some (digit (not s.is_collapsed));
}

unfoldable toggle_times : ℕ → Sidebar → Sidebar
unfolding toggle_collapsed
toggle_times zero s = s
toggle_times (suc n) s = toggle_times n (toggle_collapsed s)

is_one-digit : (b : Bool) → is_one (some (digit b)) ≡ b
is_one-digit true = refl
is_one-digit false = refl

toggle_times-saved :
    (n : ℕ) (s : Sidebar)
    → is_one s.stored ≡ s.is_collapsed
    → is_one (toggle_times n s).stored ≡ (toggle_times n s).is_collapsed
unfolding toggle_times toggle_collapsed
toggle_times-saved zero s h = h
toggle_times-saved (suc n) s h =
    toggle_times-saved n (toggle_collapsed s) (is_one-digit (not s.is_collapsed))

-- However often the sidebar was folded and unfolded, a page that loads shows it as it was last.
toggle_times_reload :
    (n : ℕ) (stored : Option String)
    → (load (toggle_times n (load stored)).stored).is_collapsed
      ≡ (toggle_times n (load stored)).is_collapsed
unfolding load
toggle_times_reload n stored = toggle_times-saved n (load stored) refl
