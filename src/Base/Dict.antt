-- ===== src/Base/Dict.antt =====
-- Go's maps with text keys, as association lists: reading a missing key, and writing.
use dante_api_systems.Base.Tests.{str_eq, eq_iff, if◌then◌else◌}
use Prim.Native.String.{String}
use mathlib.Core.Path.{◌≡◌, refl}
use mathlib.Core.Option.{Option, none, some}
use mathlib.Core.List.{List, [], ◌∷◌}
use native.Mathlib.Omega.{arith}

abbrev pub Dict {ℓ} : Type ℓ → Type ℓ
Dict V = List (String × V)

module _ {ℓ} {V : Type ℓ} where
  unfoldable pub lookup : String → Dict V → Option V
  lookup key [] = none
  lookup key ((name, value) ∷ rest) =
      let later = lookup key rest in if str_eq name key then some value else later

  unfoldable pub insert : String → V → Dict V → Dict V
  insert key value [] = (key, value) ∷ []
  insert key value ((name, old) ∷ rest) =
      let later = insert key value rest in
      if str_eq name key then (key, value) ∷ rest else (name, old) ∷ later

  -- What a written map answers for any key.
  pub lookup-insert :
      (dict : Dict V) (value : V) (key asked : String)
      → lookup asked (insert key value dict)
        ≡ (if str_eq key asked then some value else lookup asked dict)
  unfolding lookup insert
  lookup-insert [] value key asked = refl
  lookup-insert ((name, old) ∷ rest) value key asked =
      let later = lookup-insert rest value key asked in
      ground (arith, later, eq_iff key asked, eq_iff name key, eq_iff name asked)
