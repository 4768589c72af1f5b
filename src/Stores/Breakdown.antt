-- ===== src/Stores/Breakdown.antt =====
-- The card of the usage by kinds of files: web/src/pages/app/stores/StorageBreakdownCard.tsx. The width of
-- a part of the bar is a fraction of a hundredth here, bytes over the total.
use go_drive.Base.{
  ℕ, ◌+◌, ◌≤◌, String, Bool, true, false, ◌&&◌, Option, none, some, List, [], ◌∷◌, map, filter, ltb,
  ◌≡◌, refl, arith, Bool-cases, inl, inr,
}
use go_drive.Format.{format_store_bytes}
use go_drive.Format as Format

pub record Breakdown : Type 0 where
  pub photo : ℕ
  pub video : ℕ
  pub document : ℕ
  pub total : ℕ

pub record Segment : Type 0 where
  pub key : String
  pub bytes : ℕ

unfoldable pub segments : Breakdown → List Segment
segments b =
    record { key = "photo"; bytes = b.photo }
    ∷ record { key = "video"; bytes = b.video }
    ∷ record { key = "document"; bytes = b.document }
    ∷ []

-- The parts of the bar: `pct <= 0` leaves one out.
unfoldable pub bar : Breakdown → List Segment
bar b = filter (λ s. ltb 0 b.total && ltb 0 s.bytes) (segments b)

-- The lines below it, and the total.
unfoldable pub totals : Breakdown → List (String × Format.Shown)
totals b = map (λ s. (s.key, format_store_bytes s.bytes)) (segments b)

pub data View : Type 0 where
  loading failed : View
  shown : List Segment → List (String × Format.Shown) → Format.Shown → View

unfoldable pub view : Bool → Bool → Option Breakdown → View
view true is_error answer = loading
view false true answer = failed
view false false none = failed
view false false (some b) = shown (bar b) (totals b) (format_store_bytes b.total)

abbrev pub sum : List Segment → ℕ
sum [] = 0
sum (s ∷ ss) = s.bytes + sum ss

sum-filter :
    (b : Breakdown) (ss : List Segment)
    → ltb 0 b.total ≡ true
    → sum (filter (λ s. ltb 0 b.total && ltb 0 s.bytes) ss) ≡ sum ss
sum-filter b [] h = refl
sum-filter b (s ∷ ss) h = ground (arith, h, sum-filter b ss h)

sum-filter-le :
    (b : Breakdown) (ss : List Segment)
    → sum (filter (λ s. ltb 0 b.total && ltb 0 s.bytes) ss) ≤ sum ss
sum-filter-le b [] = omega arith
sum-filter-le b (s ∷ ss) = ground (arith, sum-filter-le b ss)

-- If the kinds are not more than the total, neither are the parts of the bar; and if they add up to
-- it, so do the parts, which fill the bar.
pub bar_lem :
    (b : Breakdown)
    → b.photo + b.video + b.document ≤ b.total
    → (sum (bar b) ≤ b.total) × (b.photo + b.video + b.document ≡ b.total → sum (bar b) ≡ b.total)
unfolding bar segments
bar_lem b h =
    let l = sum-filter-le b (segments b) in
    elim (Bool-cases (ltb 0 b.total)) [
      | inl y ↦
          let e = sum-filter b (segments b) y in (omega (arith, l, h), λ k. omega (arith, e, k))
      | inr n ↦
          let z : b.total ≡ 0 = ground (arith, n) in
          (omega (arith, l, h), λ k. omega (arith, l, h, z))
    ]
