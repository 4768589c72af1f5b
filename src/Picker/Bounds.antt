-- ===== src/Picker/Bounds.antt =====
-- The size of a compressed image: web/src/lib/imageCompress.ts.
use native.Mathlib.Nat.{
  div-lt_iff_lt-mul, mul-le-mul_right, mul-le-mul_left, le-max_left, le-max_right,
}
use Prim.Native.Nat.{max}
use go_drive.Base.{ℕ, suc, ◌+◌, ◌*◌, ◌/◌, ◌≤◌, ◌<◌, arith, Bool-cases, inl, inr, leb, leb→le}
use go_drive.Picker.{Size, canvas_size, scaled}

rounded_le :
    (m longest side : ℕ)
    → m < longest
    → side ≤ longest
    → ((2 * (side * m) + longest) / (2 * longest) ≤ m)
      × ((2 * (side * m) + longest) / (2 * longest) ≤ side)
rounded_le m longest side k h =
    let x = 2 * (side * m) + longest in
    let a = mul-le-mul_right m h in
    let b : side * m ≤ side * longest = mul-le-mul_left side (omega (arith, k)) in
    let c =
      (div-lt_iff_lt-mul {k = 2 * longest} {x = x} {y = suc m} (omega (arith, k))).1
        (omega (arith, a, k)) in
    let d =
      (div-lt_iff_lt-mul {k = 2 * longest} {x = x} {y = suc side} (omega (arith, k))).1
        (omega (arith, b, k)) in
    (omega (arith, c), omega (arith, d))

scaled_le :
    (m longest side : ℕ)
    → side ≤ longest
    → (scaled m longest side ≤ m) × (scaled m longest side ≤ side)
scaled_le m longest side h = elim (Bool-cases (leb longest m)) [
  | inl y ↦ let z = leb→le longest m y in rw y (omega (arith, z, h), omega arith)
  | inr n ↦ rw n (rounded_le m longest side (ground (arith, n)) h)
]

-- A canvas is at most as wide and as high as the limit and as the image.
pub canvas_size_lem :
    (m : ℕ) (b : Size)
    → ((canvas_size m b).width ≤ m)
      × ((canvas_size m b).height ≤ m)
      × ((canvas_size m b).width ≤ b.width)
      × ((canvas_size m b).height ≤ b.height)
unfolding canvas_size
canvas_size_lem m b =
    let w = scaled_le m (max b.width b.height) b.width (le-max_left b.width b.height) in
    let h = scaled_le m (max b.width b.height) b.height (le-max_right b.width b.height) in
    (w.0, h.0, w.1, h.1)
