-- ===== src/Format/Log.antt =====
-- The floor of the logarithm to base 1024.
use native.Mathlib.Nat.{pow-suc}
use go_drive.Base.{
  ℕ, zero, suc, ◌/◌, ◌^◌, ◌≤◌, ◌<◌, ltb, if◌then◌else◌, arith, Bool-cases, inl, inr, ltb→lt,
}

-- On fuel; a number is divided as long as it is at least 1024.
unfoldable pub log_fuel : ℕ → ℕ → ℕ
log_fuel zero n = 0
log_fuel (suc f) n = let rest = suc (log_fuel f (n / 1024)) in if ltb n 1024 then 0 else rest

-- The number itself is fuel enough, since a division makes it smaller.
unfoldable pub floor_log : ℕ → ℕ
unfolding log_fuel
floor_log n = log_fuel n n

log_fuel_bounds :
    (f n : ℕ) → 0 < n → n ≤ f → (1024 ^ log_fuel f n ≤ n) × (n < 1024 ^ suc (log_fuel f n))
unfolding log_fuel
log_fuel_bounds zero n p q = absurd (omega arith)
log_fuel_bounds (suc f) n p q = elim (Bool-cases (ltb n 1024)) [
  | inl small ↦ rw small (p, ltb→lt n 1024 small)
  | inr large ↦
      rw large (bigger (ground arith) (log_fuel_bounds f (n / 1024) (ground arith) (omega arith)))
]
  where
    bigger :
        1024 ≤ n
        → (1024 ^ log_fuel f (n / 1024) ≤ n / 1024)
          × (n / 1024 < 1024 ^ suc (log_fuel f (n / 1024)))
        → (1024 ^ suc (log_fuel f (n / 1024)) ≤ n) × (n < 1024 ^ suc (suc (log_fuel f (n / 1024))))
    bigger l (lo, hi) =
        let k = log_fuel f (n / 1024) in
        (omega (arith, pow-suc 1024 k, lo), omega (arith, pow-suc 1024 (suc k), hi))

-- The power of 1024 below a positive number, and the one above.
pub floor_log_bounds : (n : ℕ) → 0 < n → (1024 ^ floor_log n ≤ n) × (n < 1024 ^ suc (floor_log n))
unfolding floor_log
floor_log_bounds n p = log_fuel_bounds n n p (omega arith)
