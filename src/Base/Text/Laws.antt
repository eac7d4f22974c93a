-- ===== src/Base/Text/Laws.antt =====
-- Laws of the functions on texts.
use Prim.Native.Char.{Char}
use Prim.Native.String.{String, [], ◌∷◌}
use mathlib.Core.Path.{◌≡◌, refl, sym, ap, ◌∙◌}
use mathlib.Core.Logic.{◌⊎◌, inl, inr}
use mathlib.Core.Bool.{true, false}
use mathlib.Core.List.{List}
use text.Mathlib.Text.{◌==◌}
use text.Mathlib.TextEquality.{eq_iff}
use lunaship.Base.Tests.{Bool-cases}
use lunaship.Base.Lists.{In}
use lunaship.Base.Text.{is_space, trim_left, trim_right, cons_unless_blank, trim_space, contains}

pub contains→In : (xs : List String) (s : String) → contains xs s ≡ true → In s xs
unfolding contains
contains→In List.[] s h = cc
contains→In (List.◌∷◌ t ts) s h = elim (Bool-cases (t == s)) [
  | inl same ↦ inl (sym ((eq_iff t s).0 same))
  | inr other ↦ inr (contains→In ts s (rw (other, contains) at h))
]

pub In→contains : (xs : List String) (s : String) → In s xs → contains xs s ≡ true
unfolding contains
In→contains List.[] s m = elim m [ ]
In→contains (List.◌∷◌ t ts) s (inl e) = rw ((eq_iff t s).1 (sym e), contains)
In→contains (List.◌∷◌ t ts) s (inr m) = elim (Bool-cases (t == s)) [
  | inl same ↦ rw (same, contains)
  | inr other ↦ rw (other, contains) (In→contains ts s m)
]

-- The text does not begin with a space.
abbrev Tight : String → Type 0
Tight [] = Unit
Tight (c ∷ s) = is_space c ≡ false

pub String-cases : (s : String) → (s ≡ []) ⊎ ((c : Char) × (t : String) × (s ≡ c ∷ t))
String-cases [] = inl refl
String-cases (c ∷ t) = inr (c, t, refl)

trim_left-Tight : (s : String) → Tight (trim_left s)
unfolding trim_left
trim_left-Tight [] = tt
trim_left-Tight (c ∷ s) = elim (Bool-cases (is_space c)) [
  | inl blank ↦ rw blank (trim_left-Tight s)
  | inr solid ↦ rw solid solid
]

trim_left_of_Tight : (s : String) → Tight s → trim_left s ≡ s
unfolding trim_left
trim_left_of_Tight [] h = refl
trim_left_of_Tight (c ∷ s) h = rw h

trim_right-Tight : (s : String) → Tight s → Tight (trim_right s)
unfolding trim_right
trim_right-Tight [] h = tt
trim_right-Tight (c ∷ s) h = elim (String-cases (trim_right s)) [
  | inl e ↦ rw e (rw h h)
  | inr (d, t, e) ↦ rw e h
]

trim_right_idem : (s : String) → trim_right (trim_right s) ≡ trim_right s
unfolding trim_right
trim_right_idem [] = refl
trim_right_idem (c ∷ s) = elim (String-cases (trim_right s)) [
  | inl e ↦
      rw e
        (elim (Bool-cases (is_space c)) [ inl blank ↦ rw blank | inr solid ↦ rw solid (rw solid) ])
  | inr (d, t, e) ↦
      let again : trim_right (d ∷ t) ≡ d ∷ t = rw e at (trim_right_idem s) in
      rw e (ap (cons_unless_blank c) again)
]

-- TrimSpace changes nothing the second time.
pub trim_space_idem : (s : String) → trim_space (trim_space s) ≡ trim_space s
unfolding trim_space
trim_space_idem s =
    ap trim_right (trim_left_of_Tight _ (trim_right-Tight _ (trim_left-Tight s)))
    ∙ trim_right_idem (trim_left s)

-- A text without spaces is trimmed already.
abbrev pub IsUnspaced : String → Type 0
IsUnspaced [] = Unit
IsUnspaced (c ∷ s) = (is_space c ≡ false) × IsUnspaced s

trim_right_of_unspaced : (s : String) → IsUnspaced s → trim_right s ≡ s
unfolding trim_right
trim_right_of_unspaced [] h = refl
trim_right_of_unspaced (c ∷ []) h = rw h.0 refl
trim_right_of_unspaced (c ∷ d ∷ s) h = rw (trim_right_of_unspaced (d ∷ s) h.1, trim_right) refl

trim_left_of_unspaced : (s : String) → IsUnspaced s → trim_left s ≡ s
trim_left_of_unspaced [] h = trim_left_of_Tight [] tt
trim_left_of_unspaced (c ∷ s) h = trim_left_of_Tight (c ∷ s) h.0

pub trim_space_of_unspaced : (s : String) → IsUnspaced s → trim_space s ≡ s
unfolding trim_space
trim_space_of_unspaced s h = ap trim_right (trim_left_of_unspaced s h) ∙ trim_right_of_unspaced s h
