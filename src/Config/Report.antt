-- ===== src/Config/Report.antt =====
-- A check of a configuration that reports a problem when it fails: what an empty report means.
use Prim.Native.String.{◌++◌ as ◌<>◌}
use lunaship.Base.{
  String, Bool, true, false, none, some, List, [], ◌∷◌, if◌then◌else◌, ◌≡◌, refl, ◌↔◌, arith, ◌||◌,
  not,
}
use lunaship.Base.Int.{ℤ, pos, ltb_ℤ}
use lunaship.Base.Text.{join}
use lunaship.ConfigParse.{Problems, add, validate_port, validate_duration}

-- `if failed { problems.Add(path, message) }`
abbrev pub report : Bool → String → String → Problems → Problems
report failed path message problems = if failed then add path message problems else problems

-- No problem was found.
abbrev pub IsClean : Problems → Type 0
IsClean problems = problems ≡ some []

add-ne-clean :
    (path message : String) (problems : Problems) → IsClean (add path message problems) → ⊥
unfolding add
add-ne-clean path message none e = cc
add-ne-clean path message (some []) e = cc
add-ne-clean path message (some (d ∷ ds)) e = cc

pub report-IsClean :
    (failed : Bool) (path message : String) (problems : Problems)
    → IsClean (report failed path message problems) ↔ (IsClean problems × (failed ≡ false))
report-IsClean true path message problems =
    (λ e. absurd (add-ne-clean path message problems e), λ h. cc)
report-IsClean false path message problems = (λ e. (e, refl), λ h. h.0)

abbrev pub bad_port : ℤ → Bool
bad_port port = ltb_ℤ port (pos 1) || ltb_ℤ (pos 65535) port

pub validate_port-report :
    (port : ℤ) (path : String) (problems : Problems)
    → validate_port port path problems
      ≡ report (bad_port port) path "must be between 1 and 65535" problems
unfolding validate_port
validate_port-report port path problems = refl

pub validate_duration-report :
    (value : ℤ) (path : String) (problems : Problems)
    → validate_duration value path problems
      ≡ report (ltb_ℤ value (pos 0)) path "must be greater than or equal to 0" problems
unfolding validate_duration
validate_duration-report value path problems = refl

quoted_all : List String → List String
quoted_all [] = []
quoted_all (k ∷ ks) = ("\"" <> k <> "\"") ∷ quoted_all ks

-- `fmt.Sprintf("must be one of %q", keys)`, of keys with nothing to escape.
unfoldable pub one_of : List String → String
unfolding quoted_all
one_of keys = "must be one of [" <> join " " (quoted_all keys) <> "]"

-- What the failing of a check's test says of the test's parts.
pub of_not : (b : Bool) → not b ≡ false → b ≡ true
of_not b e = ground arith

pub neither : (a b : Bool) → a || b ≡ false → (a ≡ false) × (b ≡ false)
neither a b e = ground arith

pub of_else : (a b : Bool) → a ≡ false → (if a then false else not b) ≡ false → b ≡ true
of_else a b h e = ground arith
