-- ===== src/Activity/Parts.antt =====
-- When the metadata of a log give parts, and when they fail: `metadataParts` of activity.ts.
use go_drive.Base.{
  ℕ, String, Bool, true, false, Option, none, some, List, [], ◌∷◌, Dict, truthy, ◌≡◌, ◌≢◌, ◌↔◌, inl,
  inr, refl, Bool-cases, eq_iff, ap, not, ◌==◌, arith,
}
use go_drive.Api.{resolved, rejected, type_error}
use go_drive.Activity.{
  Metadata, no_metadata, raw, fields, Field, Value, null, object, Part, metadata_parts, or_json,
  found_parts, parts_of,
}

-- Text that is JSON for null.
abbrev pub IsNullText : (String → Option Value) → Metadata → Type 0
IsNullText parse (raw s) = (truthy s ≡ true) × (parse s ≡ some null)
IsNullText parse _ = ⊥

-- There is nothing in the column.
abbrev pub IsEmpty : Metadata → Type 0
IsEmpty no_metadata = Unit
IsEmpty (raw s) = s ≡ ""
IsEmpty (fields o) = ⊥

module _ (print : ℕ → String) (parse : String → Option Value)
    (stringify : Dict Field → String) where
  or_json-ne :
      (o : Dict Field) (ps : List Part)
      → resolved (or_json print parse stringify o ps) ≢ resolved []
  or_json-ne o [] = λ e. cc
  or_json-ne o (p ∷ ps) = λ e. cc

  parsed :
      (s : String) (v : Option Value)
      → ((parts_of print parse stringify s v ≡ rejected type_error) ↔ (v ≡ some null))
        × (parts_of print parse stringify s v ≢ resolved [])
  parsed s none = ((λ e. cc, λ e. cc), λ e. cc)
  parsed s (some null) = ((λ e. refl, λ e. refl), λ e. cc)
  parsed s (some (object o)) = ((λ e. cc, λ e. cc), or_json-ne o (found_parts print o))

  -- The parts of a row cannot be made exactly when the column is text that is JSON for null; they are
  -- none exactly when the column is missing or the empty text, so that every other row shows
  -- something, also for text that is no JSON and for an object without a field that is looked for.
  pub metadata_parts_iff :
      (m : Metadata)
      → ((metadata_parts print parse stringify m ≡ rejected type_error) ↔ IsNullText parse m)
        × ((metadata_parts print parse stringify m ≡ resolved []) ↔ IsEmpty m)
  unfolding metadata_parts
  metadata_parts_iff no_metadata = ((λ e. cc, λ h. absurd h), (λ e. tt, λ h. refl))
  metadata_parts_iff (fields o) =
      ((λ e. cc, λ h. absurd h), (λ e. or_json-ne o (found_parts print o) e, λ h. absurd h))
  metadata_parts_iff (raw s) = elim (Bool-cases (truthy s)) [
    | inl t ↦
        let p = parsed s (parse s) in
        rw t ((λ e. (refl, p.0.0 e), λ h. p.0.1 h.1), (λ e. absurd (p.1 e), λ e. cc (ap truthy e)))
    | inr n ↦ rw n ((λ e. cc, λ h. cc h.0), (λ e. (eq_iff s "").0 (unless (s == "") n), λ e. refl))
  ]
    where
      unless : (b : Bool) → not b ≡ false → b ≡ true
      unless b h = ground arith
