-- ===== src/ConfigParse.antt =====
-- configparse/helpers.go: the problems found in a configuration, the checks that report them, and
-- the walk to a section. mapstructure is a parameter.
pub mod Lookup
pub mod Keys
mod Samples
use lunaship.Base.{
  ℕ, String, Bool, true, false, Option, none, some, List, [], ◌∷◌, ◌++◌, map, if◌then◌else◌, ◌||◌,
  Result, ok, err,
}
use lunaship.Base.Int.{ℤ, pos, ltb_ℤ}
use lunaship.Base.Text.{trim_space, is_empty, contains}

pub record FieldError : Type 0 where
  pub path : String
  pub message : String

-- A *Problems: `none` is the nil pointer.
abbrev pub Problems : Type 0
Problems = Option (List FieldError)

unfoldable pub add : String → String → Problems → Problems
add path message none = none
add path message (some details) = some (details ++ record { path = path; message = message } ∷ [])

unfoldable pub has_errors : Problems → Bool
has_errors none = false
has_errors (some []) = false
has_errors (some (e ∷ es)) = true

unfoldable pub errors : Problems → List FieldError
errors none = []
errors (some details) = details

-- mapstructure: whether a decoder for a target can be made, and what it does with an input, the target
-- included, which also a failing one may change.
pub record Mapstructure (E I O M : Type 0) : Type 0 where
  pub new_decoder : O → Option E
  pub run_decoder : I → O → Result E M × O

-- Decode: the metadata, and the target behind it.
unfoldable pub decode : {E I O M : Type 0} → Mapstructure E I O M → I → O → Result E M × O
decode library input out = elim (library.new_decoder out) [
  | some e ↦ (err e, out)
  | none ↦ library.run_decoder input out
]

-- AddDecodeError; an error is held as its text. Both branches of the code add the same entry.
unfoldable pub add_decode_error : Problems → String → Option String → Problems
add_decode_error problems path none = problems
add_decode_error problems path (some message) =
    if is_empty path then add "" message problems else add path message problems

unfoldable pub add_unused_paths : Problems → List String → List String → Problems
add_unused_paths problems [] ignored = problems
add_unused_paths problems (path ∷ paths) ignored =
    add_unused_paths (if contains ignored path then problems else add path "unknown field" problems)
      paths ignored

-- AddUnused; the metadata is held as its list of unused paths.
unfoldable pub add_unused : Problems → Option (List String) → List String → Problems
unfolding add_unused_paths
add_unused problems none ignored = problems
add_unused problems (some unused) ignored = add_unused_paths problems unused ignored

unfoldable pub validate_port : ℤ → String → Problems → Problems
validate_port port path problems =
    if ltb_ℤ port (pos 1) || ltb_ℤ (pos 65535) port
    then add path "must be between 1 and 65535" problems
    else problems

unfoldable pub validate_duration : ℤ → String → Problems → Problems
validate_duration value path problems =
    if ltb_ℤ value (pos 0) then add path "must be greater than or equal to 0" problems else problems

unfoldable pub trim_string_slice : List String → List String
trim_string_slice values = map trim_space values
