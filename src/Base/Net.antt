-- ===== src/Base/Net.antt =====
-- Go's functions on addresses and numbers in texts: `strconv.Atoi`, `net.SplitHostPort`, and
-- `time.Duration.Milliseconds`.
pub mod Laws
pub mod Address
use Prim.Native.Char.{Char, code}
use Prim.Native.String.{String, [], ◌∷◌}
use Prim.Native.Nat.{ℕ, zero, suc, ◌+◌, ◌-◌, ◌*◌, ◌/◌}
use mathlib.Core.Bool.{Bool, ◌&&◌, ◌||◌, not}
use mathlib.Core.Option.{Option, none, some}
use lunaship.Base.Tests.{if◌then◌else◌, leb}
use lunaship.Base.Int.{ℤ, pos, negsuc}
use lunaship.Base.Text.{trim_space, is_empty}
use lunaship.Base.Scan.{contains_text, behind_prefix, split_last}

abbrev pub is_digit : Char → Bool
is_digit c = leb 48 (code c) && leb (code c) 57

-- The value of a text of digits behind those with the value `n`.
unfoldable pub digits_value : ℕ → String → Option ℕ
digits_value n [] = some n
digits_value n (c ∷ s) =
    let rest = digits_value (n * 10 + (code c - 48)) s in if is_digit c then rest else none

abbrev unsigned : String → Option ℕ
unsigned [] = none
unsigned (c ∷ s) = digits_value 0 (c ∷ s)

abbrev positive : Option ℕ → Option ℤ
positive none = none
positive (some n) = if leb n 9223372036854775807 then some (pos n) else none

abbrev negate : ℕ → ℤ
negate zero = pos 0
negate (suc n) = negsuc n

abbrev negative : Option ℕ → Option ℤ
negative none = none
negative (some n) = if leb n 9223372036854775808 then some (negate n) else none

abbrev or_else : {A : Type 0} → Option A → Option A → Option A
or_else none b = b
or_else (some a) b = some a

-- strconv.Atoi
unfoldable pub atoi : String → Option ℤ
atoi s = elim (behind_prefix s "-") [
  | some digits ↦ negative (unsigned digits)
  | none ↦ elim (behind_prefix s "+") [
    | some digits ↦ positive (unsigned digits)
    | none ↦ positive (unsigned s)
  ]
]

-- The parser of a port that mysql and redis share: 0 for what is no port.
unfoldable pub parse_port : String → ℤ
parse_port raw = elim (atoi (trim_space raw)) [
  | some (pos n) ↦ pos n
  | some (negsuc n) ↦ pos 0
  | none ↦ pos 0
]

abbrev has_bracket : String → Bool
has_bracket s = contains_text s "[" || contains_text s "]"

-- The host and the port of a text before and behind its last colon: the host is in brackets, or it
-- has neither colons nor brackets.
unfoldable pub checked : String → String → Option (String × String)
checked before port = elim (behind_prefix before "[") [
  | some inner ↦ elim (split_last "]" inner) [
    | some (host, end) ↦
        if is_empty end && not (has_bracket host) && not (has_bracket port)
        then some (host, port)
        else none
    | none ↦ none
  ]
  | none ↦
      if contains_text before ":" || has_bracket before || has_bracket port
      then none
      else some (before, port)
]

-- net.SplitHostPort
unfoldable pub split_host_port : String → Option (String × String)
split_host_port s = elim (split_last ":" s) [
  | none ↦ none
  | some (before, port) ↦ checked before port
]

-- time.Duration.Milliseconds: the division rounds to 0.
unfoldable pub milliseconds : ℤ → ℤ
milliseconds (pos n) = pos (n / 1000000)
milliseconds (negsuc n) = negate ((n + 1) / 1000000)

-- strings.LastIndex with both parts not empty, as the parsers of addresses ask for it.
abbrev pub split_inside : String → Option (String × String)
split_inside s = elim (split_last ":" s) [
  | none ↦ none
  | some (before, after) ↦ if is_empty before || is_empty after then none else some (before, after)
]
