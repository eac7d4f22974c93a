-- ===== src/Infra/Mask.antt =====
-- infra/mask.go and the check of the secret in infra/jwt.go. `none` is a panic of the runtime or of
-- the code.
use Prim.Native.String.{◌∷◌ as ◌∷ₛ◌, [] as []ₛ, ◌++◌ as ◌<>◌}
use lunaship.Base.{ℕ, zero, suc, ◌-◌, String, Option, none, some, if◌then◌else◌, ltb}
use lunaship.Base.Int.{ℤ, pos, negsuc}
use lunaship.Base.Text.{trim_space, is_empty}
use lunaship.Base.Scan.{repeat_text}

-- len([]rune(s))
unfoldable pub rune_count : String → ℕ
rune_count []ₛ = 0
rune_count (c ∷ₛ s) = suc (rune_count s)

-- string([]rune(s)[n:])
unfoldable pub drop_runes : ℕ → String → String
drop_runes zero s = s
drop_runes (suc n) []ₛ = []ₛ
drop_runes (suc n) (c ∷ₛ s) = drop_runes n s

abbrev masked_tail : String → ℕ → ℕ → String
masked_tail text n tail =
    if ltb n tail
    then trim_space (repeat_text "*" n)
    else trim_space (repeat_text "*" (n - tail) <> drop_runes (n - tail) text)

-- SecretStrMask. A tail below 0 slices behind the end.
unfoldable pub secret_str_mask : String → ℤ → Option String
secret_str_mask original (pos zero) = some original
secret_str_mask original (pos (suc tail)) =
    let text = trim_space original in
    if is_empty text then some "" else some (masked_tail text (rune_count text) (suc tail))
secret_str_mask original (negsuc tail) = if is_empty (trim_space original) then some "" else none

-- What MiddlewareJWTAuth prints of its secret, if it is not blank.
unfoldable pub loaded_secret_line : String → Option String
loaded_secret_line secret =
    if is_empty (trim_space secret) then none else elim (secret_str_mask secret (pos 8)) [
      | none ↦ none
      | some masked ↦ some ("load jwt secret:" <> masked)
    ]
