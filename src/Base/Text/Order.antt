-- ===== src/Base/Text/Order.antt =====
-- The order of texts.
use Prim.Native.Nat.{Ordering}
use Prim.Native.String.{String, [], ◌∷◌, compare}
use Prim.Native.String.compare
use mathlib.Core.Path.{◌≡◌}
use mathlib.Core.Bool.{true, false}
use native.Mathlib.Omega.{arith}
use lunaship.Base.Text.{str_ltb}

-- s <= t
abbrev pub LeText : String → String → Type 0
LeText s t = str_ltb t s ≡ false

flip-compare : (s t : String) → compare s t ≡ Ordering.gt → compare t s ≡ Ordering.lt
flip-compare [] [] h = grind (arith, compare.nil-nil)
flip-compare [] (d ∷ t) h = grind (arith, compare.nil-cons d t)
flip-compare (c ∷ s) [] h = grind (arith, compare.nil-cons c s)
flip-compare (c ∷ s) (d ∷ t) h =
    ground (arith, compare.cons-cons c d s t, compare.cons-cons d c t s, flip-compare s t)

flip-compare_lt : (s t : String) → compare s t ≡ Ordering.lt → compare t s ≡ Ordering.gt
flip-compare_lt [] [] h = grind (arith, compare.nil-nil)
flip-compare_lt [] (d ∷ t) h = grind (arith, compare.cons-nil d t)
flip-compare_lt (c ∷ s) [] h = grind (arith, compare.cons-nil c s)
flip-compare_lt (c ∷ s) (d ∷ t) h =
    ground (arith, compare.cons-cons c d s t, compare.cons-cons d c t s, flip-compare_lt s t)

pub le_of_lt : (s t : String) → str_ltb s t ≡ true → LeText s t
le_of_lt s t h = ground (arith, flip-compare_lt s t)

pub le_trans : (s t u : String) → LeText s t → LeText t u → LeText s u
le_trans [] t [] h k = grind (arith, compare.nil-nil)
le_trans [] t (e ∷ u) h k = grind (arith, compare.cons-nil e u)
le_trans (c ∷ s) [] u h k = grind (arith, compare.nil-cons c s)
le_trans (c ∷ s) (d ∷ t) [] h k = grind (arith, compare.nil-cons d t)
le_trans (c ∷ s) (d ∷ t) (e ∷ u) h k = ground (
  arith,
  compare.cons-cons d c t s,
  compare.cons-cons e d u t,
  compare.cons-cons e c u s,
  le_trans s t u,
)
