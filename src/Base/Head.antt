-- ===== src/Base/Head.antt =====
-- Tests on the head of a text.
use Prim.Native.String.{String, [], ◌∷◌}
use mathlib.Core.Bool.{Bool, false}
use text.Mathlib.Text.{◌==◌}

-- strings.HasPrefix by a text of one character.
abbrev pub has_prefix_char : String → String → Bool
has_prefix_char p [] = false
has_prefix_char p (c ∷ s) = p == (c ∷ [])

-- s[1:]
abbrev pub tail_text : String → String
tail_text [] = []
tail_text (c ∷ s) = s
