-- ===== src/Prelude/Text.antt =====
-- The order of texts: Python compares strings by code points, and tuples by their first difference.
use Prim.Native.Nat.{ℕ}
use Prim.Native.Char.{code}
use Prim.Native.String.{String}
use mathlib.Core.Bool.{Bool, true, false}
use mathlib.Core.List.{List, [], ◌∷◌}
use netaro_settlement_router.Prelude.Tests.{ltb, ◌==◌, if◌then◌else◌}

abbrev codes : String → List ℕ
codes String.[] = []
codes (String.◌∷◌ c s) = code c ∷ codes s

-- `a < b` of sequences, over the order and the equality of their elements.
module _ {ℓ} {A : Type ℓ} (lt same : A → A → Bool) where
  abbrev pub sequence_lt : List A → List A → Bool
  sequence_lt [] [] = false
  sequence_lt [] (y ∷ ys) = true
  sequence_lt (x ∷ xs) [] = false
  sequence_lt (x ∷ xs) (y ∷ ys) =
      let rest = sequence_lt xs ys in if lt x y then true else if same x y then rest else false

unfoldable pub text_lt : String → String → Bool
text_lt s t = sequence_lt ltb ◌==◌ (codes s) (codes t)
