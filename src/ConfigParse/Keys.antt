-- ===== src/ConfigParse/Keys.antt =====
-- configparse/helpers.go: OrderedKeys, an exchange sort of the keys of a set.
use mathlib.Core.Bool.{Bool-set}
use mathlib.Core.List.{Perm}
use mathlib.Core.List.Perm
use text.Mathlib.TextPositions.{compare_refl}
use lunaship.Base.{
  ℕ, zero, suc, String, true, false, List, [], ◌∷◌, ◌≡◌, refl, arith, length, All, All-perm,
  Bool-cases, inl, inr, ap,
}
use lunaship.Base.Text.{str_ltb}
use lunaship.Base.Text.Order.{LeText, le_of_lt, le_trans}

-- The inner loop at one `i`: what ends up in out[i], and the entries behind it.
unfoldable pub sink : String → List String → String × List String
sink x [] = (x, [])
sink x (y ∷ ys) = elim (str_ltb y x) [
  | true ↦ let (least, rest) = sink y ys in (least, x ∷ rest)
  | false ↦ let (least, rest) = sink x ys in (least, y ∷ rest)
]

-- The outer loop, by the rounds that are left.
exchange_rounds : ℕ → List String → List String
exchange_rounds zero out = out
exchange_rounds (suc n) [] = []
exchange_rounds (suc n) (x ∷ xs) = let (least, rest) = sink x xs in least ∷ exchange_rounds n rest

-- OrderedKeys, of the keys in the order in which the range over the map gives them.
unfoldable pub ordered_keys : List String → List String
unfolding exchange_rounds sink
ordered_keys keys = exchange_rounds (length keys) keys

abbrev pub IsSortedText : List String → Type 0
IsSortedText [] = Unit
IsSortedText (x ∷ xs) = All (LeText x) xs × IsSortedText xs

sink-perm : (x : String) (ys : List String) → Perm ((sink x ys).0 ∷ (sink x ys).1) (x ∷ ys)
unfolding sink
sink-perm x [] = Perm.rfl
sink-perm x (y ∷ ys) = elim (Bool-cases (str_ltb y x)) [
  | inl less ↦
      rw (less, sink)
        (Perm.trans (Perm.swap x (sink y ys).0 (sink y ys).1) (Perm.cons x (sink-perm y ys)))
  | inr more ↦
      rw (more, sink)
        (Perm.trans (Perm.swap y (sink x ys).0 (sink x ys).1)
          (Perm.trans (Perm.cons y (sink-perm x ys)) (Perm.swap x y ys)))
]

sink-length : (x : String) (ys : List String) → length (sink x ys).1 ≡ length ys
unfolding sink
sink-length x [] = refl
sink-length x (y ∷ ys) = elim (Bool-cases (str_ltb y x)) [
  | inl less ↦ rw (less, sink) (ap suc (sink-length y ys))
  | inr more ↦ rw (more, sink) (ap suc (sink-length x ys))
]

sink-least :
    (x : String) (ys : List String)
    → LeText (sink x ys).0 x × All (LeText (sink x ys).0) (sink x ys).1
unfolding sink
sink-least x [] = (ground (arith, compare_refl x), tt)
sink-least x (y ∷ ys) = elim (Bool-cases (str_ltb y x)) [
  | inl less ↦
      let (low, all) = sink-least y ys in
      let low' = le_trans (sink y ys).0 y x low (le_of_lt y x less) in
      rw (less, sink) (low', (low', all))
  | inr more ↦
      let (low, all) = sink-least x ys in
      rw (more, sink) (low, (le_trans (sink x ys).0 x y low more, all))
]

exchange_rounds-sorted :
    (n : ℕ) (out : List String)
    → length out ≡ n
    → IsSortedText (exchange_rounds n out) × Perm (exchange_rounds n out) out
unfolding exchange_rounds
exchange_rounds-sorted zero [] e = (tt, Perm.rfl)
exchange_rounds-sorted zero (x ∷ xs) e = absurd (omega arith)
exchange_rounds-sorted (suc n) [] e = (tt, Perm.rfl)
exchange_rounds-sorted (suc n) (x ∷ xs) e =
    let (least, rest) = sink x xs in
    let (sorted, perm) = exchange_rounds-sorted n rest (omega (arith, sink-length x xs)) in
    (
      (
        All-perm (LeText least) rest _ (λ t. Bool-set _ _) (Perm.symm perm) (sink-least x xs).1,
        sorted,
      ),
      Perm.trans (Perm.cons least perm) (sink-perm x xs),
    )

-- OrderedKeys gives the keys of the set in ascending order, each as often as it was given.
pub ordered_keys-sorted :
    (keys : List String) → IsSortedText (ordered_keys keys) × Perm (ordered_keys keys) keys
unfolding ordered_keys
ordered_keys-sorted keys = exchange_rounds-sorted (length keys) keys refl
