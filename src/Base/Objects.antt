-- ===== src/Base/Objects.antt =====
-- JavaScript objects used as dictionaries: `{...a, ...b}`, `o[k] = v` and `o[k]`.
use Prim.Native.String.{String}
use mathlib.Core.Path.{◌≡◌, refl}
use mathlib.Core.Bool.{Bool}
use mathlib.Core.Option.{Option, none, some}
use mathlib.Core.List.{List, [], ◌∷◌}
use native.Mathlib.Omega.{arith}
use text.Mathlib.TextEquality.{eq_iff}
use go_drive.Base.Tests.{◌==◌, if◌then◌else◌}

abbrev pub Dict {ℓ} : Type ℓ → Type ℓ
Dict V = List (String × V)

module _ {ℓ} {V : Type ℓ} where
  -- `o[k]`; a key that is absent reads as undefined.
  unfoldable pub get : Dict V → String → Option V
  get [] k = none
  get ((j, v) ∷ o) k = if j == k then some v else get o k

  -- `o[k] = v`: the key keeps its place, a new one is added at the end.
  unfoldable pub put : Dict V → String → V → Dict V
  put [] k v = (k, v) ∷ []
  put ((j, w) ∷ o) k v = if j == k then (j, v) ∷ o else (j, w) ∷ put o k v

  -- `if (value) o[k] = value`.
  unfoldable pub put? : Dict V → String → Option V → Dict V
  unfolding put
  put? o k none = o
  put? o k (some v) = put o k v

  pub get-put :
      (o : Dict V) (k j : String) (v : V) → get (put o k v) j ≡ (if k == j then some v else get o j)
  unfolding get put
  get-put [] k j v = refl
  get-put ((i, w) ∷ o) k j v = ground (arith, eq_iff i k, eq_iff i j, eq_iff k j, get-put o k j v)

  -- What a key reads after an optional write: the value written, if it is there and for this key.
  abbrev pub override : Option V → Bool → Option V → Option V
  override none same old = old
  override (some v) same old = if same then some v else old

  pub get-put? :
      (o : Dict V) (k j : String) (v : Option V)
      → get (put? o k v) j ≡ override v (k == j) (get o j)
  unfolding put?
  get-put? o k j none = refl
  get-put? o k j (some v) = get-put o k j v
