-- ===== src/Log.antt =====
-- log/required_fields_core.go: the core that every log entry passes, which renames fields, cuts
-- long texts and adds the required fields that are missing. zap's cores are parameters.
pub mod Identity
pub mod Context
pub mod Levels
pub mod Setup
pub mod Laws
mod Samples
use Prim.Native.String.{◌∷◌ as ◌∷ₛ◌, [] as []ₛ}
use lunaship.Base.{
  ℕ, zero, suc, String, Bool, true, false, not, Option, none, some, List, [], ◌∷◌, ◌++◌,
  if◌then◌else◌, ◌==◌, map, keep, eqb, leb, ◌||◌,
}
use lunaship.Base.Text.{is_empty, contains}

-- The value of a zap.Field: a string, or anything else.
pub data FieldValue (V : Type 0) : Type 0 where
  string : String → FieldValue V
  other : V → FieldValue V

pub record Field (V : Type 0) : Type 0 where
  pub key : String
  pub value : FieldValue V

abbrev pub field_key_aliases : List (String × String)
field_key_aliases =
    ("trace_id", "_trace_id")
    ∷ ("span_id", "_span_id")
    ∷ ("parent_span_id", "_parent_span_id")
    ∷ ("server_ip", "_app_ip")
    ∷ ("server_port", "_app_port")
    ∷ ("duration_ms", "_dur_ms")
    ∷ ("sql", "_sql")
    ∷ []

unfoldable pub find_alias : List (String × String) → String → Option String
find_alias [] key = none
find_alias ((k, v) ∷ rest) key = if k == key then some v else find_alias rest key

abbrev or_key : Option String → String → String
or_key none key = key
or_key (some v) key = v

-- The key that a field is given: fieldKeyAliases[key], or the key.
unfoldable pub alias : String → String
alias key = or_key (find_alias field_key_aliases key) key

abbrev pub max_log_text_len : ℕ
max_log_text_len = 1024

-- utf8.RuneCountInString
unfoldable pub rune_count : String → ℕ
rune_count []ₛ = 0
rune_count (c ∷ₛ s) = suc (rune_count s)

-- The loop of truncateUTF8: what stands before the rune at which `count` meets the limit.
unfoldable pub cut_from : ℕ → ℕ → String → String
cut_from count max []ₛ = []ₛ
cut_from count max (c ∷ₛ s) =
    let rest = cut_from (suc count) max s in if eqb count max then []ₛ else c ∷ₛ rest

unfoldable pub truncate_utf8 : String → ℕ → String
truncate_utf8 s max =
    if eqb max 0 || is_empty s then "" else if leb (rune_count s) max then s else cut_from 0 max s

module _ {V : Type 0} where
  abbrev pub truncate_value : String → FieldValue V → FieldValue V
  truncate_value key (other v) = other v
  truncate_value key (string s) =
      if key == "_sql" then string (truncate_utf8 s max_log_text_len) else string s

  -- The body of the loop of normalizeFields.
  unfoldable pub normalize_field : Field V → Field V
  normalize_field f = record { key = alias f.key; value = truncate_value (alias f.key) f.value }

  unfoldable pub normalize_fields : List (Field V) → List (Field V)
  normalize_fields fields = map normalize_field fields

  abbrev pub keys : List (Field V) → List String
  keys fields = map (λ f. f.key) fields

-- requiredFieldsCore: its inner core is of type `C`, and `bound_fields` are a map's keys.
pub record RequiredFieldsCore (C V : Type 0) : Type 0 where
  pub core : C
  pub defaults : List (Field V)
  pub bound_fields : List String

-- The methods of zapcore.Core that are called: With, and Write, which answers an error or nothing.
pub record ZapCore (C V E : Type 0) : Type 0 where
  pub with_fields : C → List (Field V) → C
  pub write : C → String → List (Field V) → Option E

module _ {C V E : Type 0} (zap : ZapCore C V E) where
  unfoldable pub new_required_fields_core : C → List (Field V) → RequiredFieldsCore C V
  new_required_fields_core core defaults = record {
    core = core;
    defaults = defaults;
    bound_fields = [];
  }

  unfoldable pub with_fields : RequiredFieldsCore C V → List (Field V) → RequiredFieldsCore C V
  with_fields c fields =
      let normalized = normalize_fields fields in
      record {
        core = zap.with_fields c.core normalized;
        defaults = c.defaults;
        bound_fields = c.bound_fields ++ keys normalized;
      }

module _ {C V : Type 0} where
  -- The fields of the entry that Write passes on.
  unfoldable pub merged_fields : RequiredFieldsCore C V → List (Field V) → List (Field V)
  merged_fields c fields =
      let normalized = normalize_fields fields in
      let present = c.bound_fields ++ keys normalized in
      normalized ++ keep (λ f. not (contains present f.key)) c.defaults

-- Check: the cores that will write an entry, given those that already will; `enabled` is the inner core's
-- answer for a level.
unfoldable pub check :
    {C V : Type 0}
    → (enabled : C → ℕ → Bool) → ℕ
    → RequiredFieldsCore C V
    → List (RequiredFieldsCore C V)
    → List (RequiredFieldsCore C V)
check enabled level c cores = if enabled c.core level then cores ++ c ∷ [] else cores

unfoldable pub write :
    {C V E : Type 0} → ZapCore C V E → RequiredFieldsCore C V → String → List (Field V) → Option E
write zap c message fields =
    zap.write c.core (truncate_utf8 message max_log_text_len) (merged_fields c fields)
