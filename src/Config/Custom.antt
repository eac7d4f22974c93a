-- ===== src/Config/Custom.antt =====
-- config/config.go: the custom sections, and the global configuration. A read or a write under the
-- lock is one step; Decode is a parameter.
use lunaship.Base.{String, Option, none, some, List, [], ◌∷◌, ok, err}
use lunaship.ConfigParse.Lookup.{Value, Fields, LookupError, lookup_path}
use lunaship.Config.Load.{AppConfig, Decoded}

-- The globals of the package.
pub record GlobalConfig (F : Type 0) : Type 0 where
  pub app_config : Option (AppConfig F)

unfoldable pub set_global : {F : Type 0} → Option (AppConfig F) → GlobalConfig F → GlobalConfig F
set_global cfg g = record g { app_config = cfg }

unfoldable pub global : {F : Type 0} → GlobalConfig F → Option (AppConfig F)
global g = g.app_config

pub data CustomError : Type 0 where
  config_is_nil bad_target : CustomError
  section_not_found : (section : String) → LookupError → CustomError
  decode_failed : (section text : String) → CustomError
  unknown_fields : (section : String) → (paths : List String) → CustomError

-- The target is nil or no pointer: `some` is a pointer that is not nil.
unfoldable pub require_decode_target : {A : Type 0} → Option A → Option CustomError
require_decode_target none = some bad_target
require_decode_target (some a) = none

module _ {A : Type 0} (decode : Value → A → Decoded A) where
  abbrev unused_error : String → Option (List String) → Option CustomError
  unused_error section none = none
  unused_error section (some []) = none
  unused_error section (some (path ∷ paths)) = some (unknown_fields section (path ∷ paths))

  abbrev decoded_error : String → Decoded A → Option CustomError
  decoded_error section d = elim d.failure [
    | some text ↦ some (decode_failed section text)
    | none ↦ unused_error section d.unused
  ]

  abbrev decode_section : String → Value → A → Option CustomError × A
  decode_section section value target =
      let d = decode value target in (decoded_error section d, d.target)

  abbrev find_section : Fields → String → A → Option CustomError × A
  find_section custom section target = elim (lookup_path custom section) [
    | err e ↦ (some (section_not_found section e), target)
    | ok value ↦ decode_section section value target
  ]

  -- GetCustomConfig: the error, and what is left in the target.
  unfoldable pub get_custom_config :
      {F : Type 0} → Option (AppConfig F) → String → Option A → Option CustomError × Option A
  get_custom_config none section out = (some config_is_nil, out)
  get_custom_config (some c) section none = (require_decode_target {A = A} none, none)
  get_custom_config (some c) section (some target) =
      let (failure, target') = find_section c.custom section target in (failure, some target')
