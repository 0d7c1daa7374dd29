-- ===== src/Base/Text.antt =====
-- Texts as the source builds and compares them, and maps keyed by texts.
use Prim.Native.String.{String, ◌++◌ as append_str}
use mathlib.Core.Path.{◌≡◌, refl}
use mathlib.Core.Bool.{Bool, true}
use mathlib.Core.List.{List, [], ◌∷◌}
use mathlib.Core.Option.{Option, none, some}
use native.Mathlib.Omega.{arith}
use takeln.Base.Tests.{if◌then◌else◌}
pub use text.Mathlib.Text.{◌==◌}
pub use text.Mathlib.TextEquality.{eq_iff}
pub use text.Mathlib.TextPositions.{eq_refl}

-- `format!`: the pieces of the template and its arguments, joined.
abbrev pub concat : List String → String
concat [] = ""
concat (s ∷ ss) = append_str s (concat ss)

-- `slice::join`
abbrev pub join : String → List String → String
join sep [] = ""
join sep (s ∷ []) = s
join sep (s ∷ t ∷ ss) = append_str s (append_str sep (join sep (t ∷ ss)))

abbrev pub mem_str : String → List String → Bool
mem_str k [] = mathlib.Core.Bool.false
mem_str k (j ∷ ks) = let rest = mem_str k ks in if j == k then true else rest

-- A `HashMap` keyed by texts, as an association list without duplicate keys.
module _ {ℓ} {V : Type ℓ} where
  abbrev pub lookup : String → List (String × V) → Option V
  lookup k [] = none
  lookup k ((j, v) ∷ m) = let rest = lookup k m in if j == k then some v else rest

  abbrev pub insert : String → V → List (String × V) → List (String × V)
  insert k v [] = (k, v) ∷ []
  insert k v ((j, w) ∷ m) = let rest = insert k v m in if j == k then (k, v) ∷ m else (j, w) ∷ rest

module _ {ℓ} {V : Type ℓ} where
  pub lookup-insert :
      (k j : String) (v : V) (m : List (String × V))
      → lookup j (insert k v m) ≡ (if k == j then some v else lookup j m)
  lookup-insert k j v [] = refl
  lookup-insert k j v ((i, w) ∷ m) =
      ground (arith, eq_iff k j, eq_iff i k, eq_iff i j, lookup-insert k j v m)
