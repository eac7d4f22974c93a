-- ===== src/Log/Context.antt =====
-- log/context.go: the fields and the trace that a context carries. A context is held as its values
-- under the package's five keys; the nil context is `none` where the code asks for it.
use lunaship.Base.{
  String, Bool, true, false, Option, none, some, List, [], ◌∷◌, ◌++◌, ◌≡◌, if◌then◌else◌, arith,
  ◌&&◌,
}
use lunaship.Base.Text.{is_empty}
use lunaship.Log.{Field, string}

pub record Context (V : Type 0) : Type 0 where
  pub fields : List (Field V)
  pub trace_id : Option String
  pub span_id : Option String
  pub parent_span_id : Option String
  pub sampled : Option Bool

-- A type assertion with the zero value for what is missing.
abbrev or_blank : Option String → String
or_blank none = ""
or_blank (some s) = s

abbrev or_true : Option Bool → Bool
or_true none = true
or_true (some b) = b

module _ {V : Type 0} where
  unfoldable pub with_fields : Context V → List (Field V) → Context V
  with_fields ctx [] = ctx
  with_fields ctx (f ∷ fs) = record ctx { fields = ctx.fields ++ f ∷ fs }

  unfoldable pub fields_from_context : Option (Context V) → List (Field V)
  fields_from_context none = []
  fields_from_context (some ctx) = ctx.fields

  abbrev text_field : String → String → Field V
  text_field key s = record { key = key; value = string s }

  abbrev put_trace : String → Context V → Context V
  put_trace id ctx =
      if is_empty id
      then ctx
      else with_fields (record ctx { trace_id = some id }) (text_field "_trace_id" id ∷ [])

  abbrev put_span : String → Context V → Context V
  put_span id ctx =
      if is_empty id
      then ctx
      else with_fields (record ctx { span_id = some id }) (text_field "_span_id" id ∷ [])

  abbrev put_parent : String → Context V → Context V
  put_parent id ctx =
      if is_empty id
      then ctx
      else with_fields (record ctx { parent_span_id = some id })
          (text_field "_parent_span_id" id ∷ [])

  unfoldable pub with_trace : Context V → (trace span parent : String) → Bool → Context V
  with_trace ctx trace span parent sampled =
      record (put_parent parent (put_span span (put_trace trace ctx))) { sampled = some sampled }

  -- TraceFromContext; `none` is the answer that is not ok.
  unfoldable pub trace_from_context : Option (Context V) → Option (String × String)
  trace_from_context none = none
  trace_from_context (some ctx) =
      if is_empty (or_blank ctx.trace_id) && is_empty (or_blank ctx.span_id)
      then none
      else some (or_blank ctx.trace_id, or_blank ctx.span_id)

  unfoldable pub is_sampled : Option (Context V) → Bool
  is_sampled none = true
  is_sampled (some ctx) = or_true ctx.sampled

  -- A trace with both identifiers is read back as it was put in, with its sampling decision.
  pub with_trace-roundtrip :
      (ctx : Context V) (trace span parent : String) (sampled : Bool)
      → is_empty trace ≡ false
      → is_empty span ≡ false
      → (trace_from_context (some (with_trace ctx trace span parent sampled)) ≡ some (trace, span))
        × (is_sampled (some (with_trace ctx trace span parent sampled)) ≡ sampled)
  unfolding with_trace trace_from_context is_sampled with_fields
  with_trace-roundtrip ctx trace span parent sampled t s = ground arith

  -- An empty identifier leaves the one that the context has.
  pub with_trace-inherits :
      (ctx : Context V) (parent : String) (sampled : Bool)
      → trace_from_context (some (with_trace ctx "" "" parent sampled))
        ≡ trace_from_context (some ctx)
  unfolding with_trace trace_from_context with_fields
  with_trace-inherits ctx parent sampled = ground arith
