-- ===== src/Base/Net/Address.antt =====
-- An address that is written as a host, a colon and a port is read as that host and that port.
use Prim.Native.Char.{Char, code}
use Prim.Native.String.{String, [], ◌∷◌, ◌++◌ as ◌<>◌}
use Prim.Native.Nat.{ℕ}
use mathlib.Core.Path.{◌≡◌, refl, sym, subst}
use mathlib.Core.Bool.{true, false}
use mathlib.Core.Option.{none, some}
use native.Mathlib.Omega.{arith}
use lunaship.Base.Tests.{eqb, leb}
use lunaship.Base.Int.{pos}
use lunaship.Base.Text.{is_space, is_empty, trim_space, itoa}
use lunaship.Base.Text.Laws.{IsUnspaced, trim_space_of_unspaced}
use lunaship.Base.Scan.{has_prefix, contains_text, behind_prefix, split_last}
use lunaship.Base.Net.{digits_value, atoi, parse_port, split_host_port, checked}
use lunaship.Base.Net.Laws.{
  Each, is_plain, IsNumber, digit_or_plain, itoa-IsNumber, nil_text, cons_text,
}

IsNumber-IsPlain : (s : String) → Each digit_or_plain s → Each is_plain s
IsNumber-IsPlain [] h = tt
IsNumber-IsPlain (c ∷ s) h = (ground arith, IsNumber-IsPlain s h.1)

Each-IsUnspaced : (s : String) → Each is_plain s → IsUnspaced s
Each-IsUnspaced [] h = tt
Each-IsUnspaced (c ∷ s) h = (ground arith, Each-IsUnspaced s h.1)

pub trim_space_of_plain : (s : String) → Each is_plain s → trim_space s ≡ s
trim_space_of_plain s h = trim_space_of_unspaced s (Each-IsUnspaced s h)

atoi_of_number :
    (s : String) (n : ℕ)
    → IsNumber s
    → digits_value 0 s ≡ some n
    → leb n 9223372036854775807 ≡ true
    → atoi s ≡ some (pos n)
unfolding atoi behind_prefix
atoi_of_number [] n h value small = absurd (ground arith)
atoi_of_number (c ∷ s) n h value small =
    let minus : eqb (code c) (code "-") ≡ false = ground arith in
    let plus : eqb (code c) (code "+") ≡ false = ground arith in
    rw (minus, plus, value, small, atoi, behind_prefix) refl

pub parse_port-itoa : (n : ℕ) → leb n 65535 ≡ true → parse_port (itoa n) ≡ pos n
unfolding parse_port
parse_port-itoa n small =
    let (value, number) = itoa-IsNumber n in
    let same = trim_space_of_plain (itoa n) (IsNumber-IsPlain (itoa n) number.0) in
    rw (same, atoi_of_number (itoa n) n number value (ground arith), parse_port) refl

-- A mark that no plain character is.
abbrev IsNoPlain : Char → Type 0
IsNoPlain mark = (c : Char) → is_plain c ≡ true → eqb (code c) (code mark) ≡ false

contains_text_of_plain :
    (mark : Char)
    → IsNoPlain mark
    → (s : String) → Each is_plain s
    → contains_text s (mark ∷ []) ≡ false
unfolding contains_text has_prefix
contains_text_of_plain mark differs [] h = refl
contains_text_of_plain mark differs (c ∷ s) h =
    rw (differs c h.0) (contains_text_of_plain mark differs s h.1)

split_last_of_plain :
    (mark : Char) → IsNoPlain mark → (s : String) → Each is_plain s → split_last mark s ≡ none
unfolding split_last
split_last_of_plain mark differs [] h = refl
split_last_of_plain mark differs (c ∷ s) h =
    rw (split_last_of_plain mark differs s h.1, split_last) (rw (differs c h.0) refl)

split_last-append :
    (mark : Char) (before after : String)
    → split_last mark after ≡ none
    → split_last mark (before <> (mark ∷ after)) ≡ some (before, after)
unfolding split_last
split_last-append mark [] after h = rw (nil_text (mark ∷ after), split_last, h) (ground arith)
split_last-append mark (c ∷ before) after h =
    rw (cons_text c before (mark ∷ after), split_last, split_last-append mark before after h) refl

is_no_colon : IsNoPlain ":"
is_no_colon c h = ground arith

is_no_open : IsNoPlain "["
is_no_open c h = ground arith

is_no_close : IsNoPlain "]"
is_no_close c h = ground arith

behind_prefix_of_plain : (s : String) → Each is_plain s → behind_prefix s "[" ≡ none
unfolding behind_prefix
behind_prefix_of_plain [] h = refl
behind_prefix_of_plain (c ∷ s) h = rw (is_no_open c h.0) refl

checked_of_plain :
    (host port : String)
    → Each is_plain host
    → Each is_plain port
    → checked host port ≡ some (host, port)
unfolding checked
checked_of_plain host port h p =
    rw
      (
        behind_prefix_of_plain host h,
        contains_text_of_plain ":" is_no_colon host h,
        contains_text_of_plain "[" is_no_open host h,
        contains_text_of_plain "]" is_no_close host h,
        contains_text_of_plain "[" is_no_open port p,
        contains_text_of_plain "]" is_no_close port p,
        checked,
      )
      refl

pub split_host_port_of_plain :
    (host port : String)
    → Each is_plain host
    → Each is_plain port
    → split_host_port (host <> (":" ∷ port)) ≡ some (host, port)
unfolding split_host_port
split_host_port_of_plain host port h p =
    rw
      (
        split_last-append ":" host port (split_last_of_plain ":" is_no_colon port p),
        split_host_port,
      )
      (checked_of_plain host port h p)

IsUnspaced-append : (s t : String) → IsUnspaced s → IsUnspaced t → IsUnspaced (s <> t)
IsUnspaced-append [] t h k = subst IsUnspaced (sym (nil_text t)) k
IsUnspaced-append (c ∷ s) t h k =
    subst IsUnspaced (sym (cons_text c s t)) (h.0, IsUnspaced-append s t h.1 k)

pub itoa-Each : (n : ℕ) → Each is_plain (itoa n)
itoa-Each n = IsNumber-IsPlain (itoa n) (itoa-IsNumber n).1.0

is_space-colon : is_space ":" ≡ false
unfolding is_space
is_space-colon = refl

-- The address of a plain host and a port has no spaces, and is not empty.
pub trim_space-address :
    (host : String) (n : ℕ)
    → Each is_plain host
    → trim_space (host <> (":" ∷ itoa n)) ≡ host <> (":" ∷ itoa n)
trim_space-address host n h = trim_space_of_unspaced _ (
    IsUnspaced-append host (":" ∷ itoa n) (Each-IsUnspaced host h)
      (is_space-colon, Each-IsUnspaced (itoa n) (itoa-Each n)))

pub is_empty-address : (host rest : String) → is_empty (host <> (":" ∷ rest)) ≡ false
is_empty-address [] rest = rw (nil_text (":" ∷ rest)) refl
is_empty-address (c ∷ host) rest = rw (cons_text c host (":" ∷ rest)) refl
