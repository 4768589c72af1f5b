-- ===== src/Format/Laws.antt =====
-- The unit and the value that the `formatBytes` functions of web/src show.
use native.Mathlib.Nat.{
  pow-le-pow_right, le-div_iff_mul-le, min-eq_left, div-lt_iff_lt-mul, min-eq_right, min_comm,
  min-le_right, min-le_left,
}
use Prim.Native.Nat.{min}
use go_drive.Base.{
  ◌||◌, ℕ, zero, suc, ◌+◌, ◌*◌, ◌/◌, ◌^◌, ◌≤◌, ◌<◌, ◌≡◌, ◌↔◌, ◌⊎◌, inl, inr, refl, none, arith,
  Bool-cases, leb, ap, ◌∙◌,
}
use go_drive.Format.{
  Shown, units, get_elem?, tenths, ones, format_bytes, format_store_bytes, format_public_bytes,
  nothing, is_zero,
}
use go_drive.Format.Log.{floor_log, floor_log_bounds}

unit_none : (k : ℕ) → (get_elem? units k ≡ none) ↔ (5 ≤ k)
unit_none zero = (λ e. cc, λ l. absurd (omega arith))
unit_none (suc zero) = (λ e. cc, λ l. absurd (omega arith))
unit_none (suc (suc zero)) = (λ e. cc, λ l. absurd (omega arith))
unit_none (suc (suc (suc zero))) = (λ e. cc, λ l. absurd (omega arith))
unit_none (suc (suc (suc (suc zero)))) = (λ e. cc, λ l. absurd (omega arith))
unit_none (suc (suc (suc (suc (suc k))))) = (λ e. omega arith, λ l. refl)

power_mono : (i j : ℕ) → i ≤ j → 1024 ^ i ≤ 1024 ^ j
power_mono i j l = pow-le-pow_right (omega arith) l

le_or_gt : (i j : ℕ) → (i ≤ j) ⊎ (suc j ≤ i)
le_or_gt i j = elim (Bool-cases (leb i j)) [
  | inl y ↦ inl (ground arith)
  | inr n ↦ inr (ground arith)
]

floor_log-ge : (n j : ℕ) → 0 < n → (j ≤ floor_log n) ↔ (1024 ^ j ≤ n)
floor_log-ge n j p =
    let (lo, hi) = floor_log_bounds n p in
    (
      λ l. omega (arith, power_mono j (floor_log n) l, lo),
      λ l. at_least hi l (le_or_gt j (floor_log n)),
    )
  where
    at_least :
        n < 1024 ^ suc (floor_log n)
        → 1024 ^ j ≤ n
        → (j ≤ floor_log n) ⊎ (suc (floor_log n) ≤ j)
        → j ≤ floor_log n
    at_least hi l (inl r) = r
    at_least hi l (inr r) = absurd (omega (arith, power_mono (suc (floor_log n)) j r))

-- The unit is undefined exactly from 1024 ^ 5 bytes on.
pub format_bytes_undefined_iff :
    (bytes : ℕ) → ((format_bytes bytes).unit ≡ none) ↔ (1024 ^ 5 ≤ bytes)
unfolding format_bytes
format_bytes_undefined_iff zero = (λ e. cc, λ l. absurd (omega arith))
format_bytes_undefined_iff (suc n) =
    let k = floor_log (suc n) in
    (
      λ e. (floor_log-ge (suc n) 5 (omega arith)).0 ((unit_none k).0 e),
      λ l. (unit_none k).1 ((floor_log-ge (suc n) 5 (omega arith)).1 l),
    )

-- The value is the quotient up to half of its last digit.
abbrev IsClose : ℕ → Shown → ℕ → Type 0
IsClose bytes shown i =
    (2 * bytes * 10 ^ shown.decimals ≤ (2 * shown.value + 1) * 1024 ^ i)
    × (2 * shown.value * 1024 ^ i ≤ 2 * bytes * 10 ^ shown.decimals + 1024 ^ i)

-- What is shown fits a number of bytes: the unit is one of the table, the largest that the number
-- reaches, and the value is the rounded quotient.
abbrev Fits : ℕ → Shown → ℕ → Type 0
Fits bytes shown i =
    (shown.unit ≡ get_elem? units i)
    × (i ≤ 4)
    × ((bytes ≡ 0) ⊎ (1024 ^ i ≤ bytes))
    × (i < 4 → bytes < 1024 ^ suc i)
    × IsClose bytes shown i

power_positive : (i : ℕ) → 0 < 1024 ^ i
power_positive i = omega (arith, power_mono zero i (omega arith))

-- Rounding a quotient to the nearest whole number.
rounded :
    (a p : ℕ)
    → 0 < p
    → (2 * a ≤ (2 * ((2 * a + p) / (2 * p)) + 1) * p)
      × (2 * ((2 * a + p) / (2 * p)) * p ≤ 2 * a + p)
rounded a p h =
    let q = (2 * a + p) / (2 * p) in
    let below : q * (2 * p) ≤ 2 * a + p =
      (le-div_iff_mul-le {k = 2 * p} {x = q} {y = 2 * a + p} (omega (arith, h))).0 (omega arith) in
    let above : 2 * a + p < suc q * (2 * p) =
      (div-lt_iff_lt-mul {k = 2 * p} {x = 2 * a + p} {y = suc q} (omega (arith, h))).0
        (omega arith) in
    (omega (arith, above), omega (arith, below))

tenths_lem :
    (n i : ℕ)
    → (2 * n * 10 ^ 1 ≤ (2 * tenths n i + 1) * 1024 ^ i)
      × (2 * tenths n i * 1024 ^ i ≤ 2 * n * 10 ^ 1 + 1024 ^ i)
tenths_lem n i =
    let same : (2 * (10 * n) + 1024 ^ i) / (2 * 1024 ^ i) ≡ tenths n i =
      ap (λ a. (a + 1024 ^ i) / (2 * 1024 ^ i)) (omega arith) in
    let (l, r) = rounded (10 * n) (1024 ^ i) (power_positive i) in
    (omega (arith, same, l), omega (arith, same, r))

ones_lem :
    (n i : ℕ)
    → (2 * n * 10 ^ 0 ≤ (2 * ones n i + 1) * 1024 ^ i)
      × (2 * ones n i * 1024 ^ i ≤ 2 * n * 10 ^ 0 + 1024 ^ i)
ones_lem n i =
    let (l, r) = rounded n (1024 ^ i) (power_positive i) in (omega (arith, l), omega (arith, r))

index_lem :
    (n i : ℕ)
    → 0 < n
    → i ≡ min 4 (floor_log n)
    → (i ≤ 4) × (1024 ^ i ≤ n) × (i < 4 → n < 1024 ^ suc i)
index_lem n i p e =
    let least = (floor_log-ge n i p).0 (omega (arith, e, min-le_right 4 (floor_log n))) in
    (omega (arith, e, min-le_left 4 (floor_log n)), least, λ l. below (le_or_gt 4 (floor_log n)) l)
  where
    below : (4 ≤ floor_log n) ⊎ (suc (floor_log n) ≤ 4) → i < 4 → n < 1024 ^ suc i
    below (inl large) l = absurd (omega (arith, e, min-eq_left large))
    below (inr small) l =
        let same : i ≡ floor_log n = e ∙ min-eq_right (omega arith) in
        rw same ((floor_log_bounds n p).1)

abbrev pub HasFit : ℕ → Shown → Type 0
HasFit bytes shown = (i : ℕ) × Fits bytes shown i

nothing-HasFit : HasFit 0 nothing
nothing-HasFit = (0, (refl, omega arith, inl refl, λ l. omega arith, (omega arith, omega arith)))

store-HasFit : (bytes : ℕ) → HasFit bytes (format_store_bytes bytes)
unfolding format_store_bytes
store-HasFit zero = nothing-HasFit
store-HasFit (suc n) =
    let i = min 4 (floor_log (suc n)) in
    let (small, reached, largest) = index_lem (suc n) i (omega arith) refl in
    elim (Bool-cases (leb (10 * 1024 ^ i) (suc n) || is_zero i)) [
      | inl whole ↦ rw whole (i, (refl, small, inr reached, largest, ones_lem (suc n) i))
      | inr part ↦ rw part (i, (refl, small, inr reached, largest, tenths_lem (suc n) i))
    ]

public-HasFit : (bytes : ℕ) → HasFit bytes (format_public_bytes bytes)
unfolding format_public_bytes
public-HasFit zero = nothing-HasFit
public-HasFit (suc n) =
    let i = min (floor_log (suc n)) 4 in
    let (small, reached, largest) = index_lem (suc n) i (omega arith) (min_comm _ 4) in
    elim (Bool-cases (is_zero i)) [
      | inl whole ↦ rw whole (i, (refl, small, inr reached, largest, ones_lem (suc n) i))
      | inr part ↦ rw part (i, (refl, small, inr reached, largest, tenths_lem (suc n) i))
    ]

-- The stores page and the public pages show every number of bytes in a unit of the table: the
-- largest that the number reaches, TB at most; and the shown value differs from the exact quotient
-- by at most half of its last digit.
pub format_bytes_fits :
    (bytes : ℕ) → HasFit bytes (format_store_bytes bytes) × HasFit bytes (format_public_bytes bytes)
format_bytes_fits bytes = (store-HasFit bytes, public-HasFit bytes)
