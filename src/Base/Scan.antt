-- ===== src/Base/Scan.antt =====
-- Go's functions that search in texts: `strings.HasPrefix`, `Contains`, `LastIndex`, `TrimRight`,
-- `EqualFold`, `Repeat`; and numbers written in base ten.
use Prim.Native.Char.{Char, code}
use Prim.Native.String.{String, [], ◌∷◌, ◌++◌ as ◌<>◌}
use Prim.Native.Nat.{ℕ, zero, suc, ◌+◌}
use mathlib.Core.Bool.{Bool, true, false, ◌&&◌, ◌||◌}
use mathlib.Core.Option.{Option, none, some}
use text.Mathlib.Text.{◌==◌}
use lunaship.Base.Tests.{eqb, if◌then◌else◌}
use lunaship.Base.Int.{ℤ, pos, negsuc}
use lunaship.Base.Text.{itoa}

-- strings.HasPrefix
unfoldable pub has_prefix : String → String → Bool
has_prefix s [] = true
has_prefix [] (p ∷ ps) = false
has_prefix (c ∷ s) (p ∷ ps) = eqb (code c) (code p) && has_prefix s ps

-- What stands behind a prefix, if the text has it.
unfoldable pub behind_prefix : String → String → Option String
behind_prefix s [] = some s
behind_prefix [] (p ∷ ps) = none
behind_prefix (c ∷ s) (p ∷ ps) = if eqb (code c) (code p) then behind_prefix s ps else none

abbrev or_text : String → Option String → String
or_text s none = s
or_text s (some t) = t

-- strings.TrimPrefix
abbrev pub trim_prefix : String → String → String
trim_prefix s prefix = or_text s (behind_prefix s prefix)

-- strings.Contains
unfoldable pub contains_text : String → String → Bool
unfolding has_prefix
contains_text [] part = has_prefix [] part
contains_text (c ∷ s) part = has_prefix (c ∷ s) part || contains_text s part

abbrev cons_unless : Char → Char → String → String
cons_unless cut c [] = if eqb (code c) (code cut) then [] else c ∷ []
cons_unless cut c (d ∷ s) = c ∷ d ∷ s

-- strings.TrimRight by a cut set of one character.
unfoldable pub trim_right_char : Char → String → String
trim_right_char cut [] = []
trim_right_char cut (c ∷ s) = cons_unless cut c (trim_right_char cut s)

abbrev split_here : Char → Char → String → Option (String × String) → Option (String × String)
split_here mark c s (some (before, after)) = some (c ∷ before, after)
split_here mark c s none = if eqb (code c) (code mark) then some ([], s) else none

-- The texts before and behind strings.LastIndex of a character, if there is one.
unfoldable pub split_last : Char → String → Option (String × String)
split_last mark [] = none
split_last mark (c ∷ s) = split_here mark c s (split_last mark s)

unfoldable pub fold_text : (Char → Char) → String → String
fold_text fold [] = []
fold_text fold (c ∷ s) = fold c ∷ fold_text fold s

-- strings.EqualFold: `fold` takes a character to the representative of its Unicode case folding.
abbrev pub equal_fold : (Char → Char) → String → String → Bool
equal_fold fold s t = fold_text fold s == fold_text fold t

-- strings.Repeat
unfoldable pub repeat_text : String → ℕ → String
repeat_text s zero = []
repeat_text s (suc n) = s <> repeat_text s n

-- strconv.FormatInt in base ten.
unfoldable pub format_int : ℤ → String
format_int (pos n) = itoa n
format_int (negsuc n) = "-" <> itoa (n + 1)
