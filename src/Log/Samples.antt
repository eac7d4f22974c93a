-- ===== src/Log/Samples.antt =====
-- The theorems on log entries and contexts applied to small ones.
use lunaship.Base.{ℕ, String, true, none, List, [], ◌∷◌, ◌≡◌, ◌++◌, All}
use lunaship.Base.Text.{contains}
use lunaship.Log.{
  Field, string, other, truncate_utf8, normalize_fields, keys, RequiredFieldsCore, merged_fields,
}
use lunaship.Log.Laws.{
  first_runes, truncate_utf8-first, normalize_fields_twice, merged_fields-defaults,
}
use lunaship.Log.Context.{Context}

truncate_utf8-first_example : truncate_utf8 "日本語" 2 ≡ first_runes 2 "日本語"
truncate_utf8-first_example = truncate_utf8-first "日本語" 2

abbrev fields : List (Field ℕ)
fields =
    record { key = "trace_id"; value = string "t1" }
    ∷ record { key = "duration_ms"; value = other 3 }
    ∷ []

normalize_fields_twice_example :
    normalize_fields (normalize_fields fields) ≡ normalize_fields fields
normalize_fields_twice_example = normalize_fields_twice fields

abbrev core : RequiredFieldsCore String ℕ
core = record {
  core = "file";
  defaults =
      record { key = "_env"; value = string "test" }
      ∷ record { key = "_trace_id"; value = string "" }
      ∷ [];
  bound_fields = "_app" ∷ [];
}

merged_fields-defaults_example :
    All
      (λ d. contains (core.bound_fields ++ keys (merged_fields core fields)) d.key ≡ true)
      core.defaults
merged_fields-defaults_example = merged_fields-defaults core fields

abbrev empty_context : Context ℕ
empty_context = record {
  fields = [];
  trace_id = none;
  span_id = none;
  parent_span_id = none;
  sampled = none;
}
