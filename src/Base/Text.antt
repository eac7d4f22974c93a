-- ===== src/Base/Text.antt =====
-- Go's `strings` and `unicode` functions that the program calls, on texts of Unicode characters
-- (a Go string that holds valid UTF-8).
pub mod Laws
pub mod Order
use Prim.Native.Nat.{ℕ, zero, suc, ◌+◌, ◌-◌, ◌/◌, ◌%◌}
use Prim.Native.Char.{Char, code}
use Prim.Native.String.{String, [], ◌∷◌, char_at, compare, slice, ◌++◌ as ◌<>◌}
use mathlib.Core.Bool.{Bool, true, false, ◌&&◌, ◌||◌}
use mathlib.Core.List.{List}
use text.Mathlib.Text.{◌==◌, is_lt}
use lunaship.Base.Tests.{leb, eqb, if◌then◌else◌}

-- unicode.IsSpace: the ASCII and Latin-1 spaces, and the category Z above them.
unfoldable pub is_space : Char → Bool
is_space c =
    (leb 9 (code c) && leb (code c) 13)
    || eqb (code c) 32
    || eqb (code c) 0x85
    || eqb (code c) 0xa0
    || eqb (code c) 0x1680
    || (leb 0x2000 (code c) && leb (code c) 0x200a)
    || eqb (code c) 0x2028
    || eqb (code c) 0x2029
    || eqb (code c) 0x202f
    || eqb (code c) 0x205f
    || eqb (code c) 0x3000

-- s == ""
abbrev pub is_empty : String → Bool
is_empty [] = true
is_empty (c ∷ s) = false

trim_left : String → String
trim_left [] = []
trim_left (c ∷ s) = if is_space c then trim_left s else c ∷ s

abbrev cons_unless_blank : Char → String → String
cons_unless_blank c [] = if is_space c then [] else c ∷ []
cons_unless_blank c (d ∷ s) = c ∷ d ∷ s

trim_right : String → String
trim_right [] = []
trim_right (c ∷ s) = cons_unless_blank c (trim_right s)

-- strings.TrimSpace
unfoldable pub trim_space : String → String
unfolding trim_left trim_right is_space
trim_space s = trim_right (trim_left s)

-- unicode.ToLower: `lower` is its table above ASCII.
lower_char : (Char → Char) → Char → Char
lower_char lower c =
    if leb b'A' (code c) && leb (code c) b'Z'
    then char_at "abcdefghijklmnopqrstuvwxyz" (code c - b'A')
    else if leb (code c) 127
    then c
    else lower c

-- strings.ToLower
unfoldable pub to_lower : (Char → Char) → String → String
unfolding lower_char
to_lower lower [] = []
to_lower lower (c ∷ s) = lower_char lower c ∷ to_lower lower s

-- utils.StrOrDefault
abbrev pub str_or_default : String → String → String
str_or_default s other = if is_empty s then other else s

-- strings.Split by a separator of one character: always at least one piece.
abbrev push_head : Char → List String → List String
push_head c List.[] = List.◌∷◌ (c ∷ []) List.[]
push_head c (List.◌∷◌ p ps) = List.◌∷◌ (c ∷ p) ps

unfoldable pub split : Char → String → List String
split sep [] = List.◌∷◌ [] List.[]
split sep (c ∷ s) =
    let rest = split sep s in if eqb (code c) (code sep) then List.◌∷◌ [] rest else push_head c rest

-- strings.Join
unfoldable pub join : String → List String → String
join sep List.[] = []
join sep (List.◌∷◌ p List.[]) = p
join sep (List.◌∷◌ p (List.◌∷◌ q ps)) = p <> sep <> join sep (List.◌∷◌ q ps)

-- strings.TrimPrefix by a prefix of one character.
abbrev pub trim_prefix_char : Char → String → String
trim_prefix_char p [] = []
trim_prefix_char p (c ∷ s) = if eqb (code c) (code p) then s else c ∷ s

-- One of the texts is the given one: a Go map used as a set.
unfoldable pub contains : List String → String → Bool
contains List.[] s = false
contains (List.◌∷◌ t ts) s = elim (t == s) [ true ↦ true | false ↦ contains ts s ]

-- s < t: Go compares bytes, which for UTF-8 is the order of the characters.
abbrev pub str_ltb : String → String → Bool
str_ltb s t = is_lt (compare s t)

insert_string : String → List String → List String
insert_string s List.[] = List.◌∷◌ s List.[]
insert_string s (List.◌∷◌ t ts) =
    if str_ltb t s then List.◌∷◌ t (insert_string s ts) else List.◌∷◌ s (List.◌∷◌ t ts)

-- slices.Sort, sort.Strings
unfoldable pub sort_strings : List String → List String
unfolding insert_string
sort_strings List.[] = List.[]
sort_strings (List.◌∷◌ s ss) = insert_string s (sort_strings ss)

-- strconv.Itoa of a number that is not negative, by its digits from the last.
unfoldable pub digits_from : ℕ → ℕ → String → String
digits_from zero n rest = rest
digits_from (suc fuel) n rest =
    let shown = slice "0123456789" (n % 10) (n % 10 + 1) <> rest in
    elim (leb n 9) [ true ↦ shown | false ↦ digits_from fuel (n / 10) shown ]

unfoldable pub itoa : ℕ → String
unfolding digits_from
itoa n = digits_from (suc n) n []
