-- ===== src/Interceptor/Calls/Stack.antt =====
-- interceptor/trace.go, interceptor/metrics.go, interceptor/req_rsp_logger.go: the three wrappers
-- around one call.
use lunaship.Base.{
  String, ap, ℕ, Option, none, some, List, [], ◌∷◌, ◌++◌, ◌≡◌, refl, Result, ok, err, if◌then◌else◌,
  length, Bool-cases, inl, inr, suc,
}
use lunaship.Log.Context.{is_sampled}
use mathlib.Core.List.{append_assoc}
use lunaship.Telemetry.{LogLine, error_line, GoContext, EndedSpan}
use lunaship.Interceptor.{Request, Process, UnaryFunc}
use lunaship.Interceptor.Calls.{
  Around, start_server_span, server_traced, measured, logged, request_lines, response_lines,
  error_of, service_name_from_env,
}

-- A service's method: it reads and changes its own state, and records nothing itself.
abbrev pub Method : Type 0 → Type 0 → Type 0 → Type 0
Method S E R = GoContext → Request → S → Result E R × S

abbrev pub method_call : {S E R : Type 0} → Method S E R → UnaryFunc S E R
method_call f ctx req p = let answer = f ctx req p.app in (answer.0, record p { app = answer.1 })

-- How many of the lines tell an error.
abbrev pub error_lines : List LogLine → ℕ
error_lines [] = 0
error_lines (line ∷ lines) = elim line.level [
  | error_line ↦ suc (error_lines lines)
  | _ ↦ error_lines lines
]

abbrev pub failures : {E : Type 0} → Option E → ℕ
failures none = 0
failures (some e) = 1

module _ {S E R : Type 0} (around : Around S E R) (f : Method S E R) where
  -- The wrappers in the order of the service's main function: metrics, trace and log, the first one outside.
  unfoldable pub served : UnaryFunc S E R
  served = measured around (server_traced around (logged around (method_call f)))

  -- The code under which a call is counted, if connect.CodeOf gives CodeUnknown for no error: "unknown" for a
  -- call that has succeeded.
  abbrev pub counted_code : Result E R → String
  counted_code (ok r) = "unknown"
  counted_code (err e) = around.code_of (some e)

  counted-code_of :
      (answer : Result E R)
      → around.code_of none ≡ "unknown"
      → around.code_of (error_of answer) ≡ counted_code answer
  counted-code_of (ok r) unknown = unknown
  counted-code_of (err e) unknown = refl

  -- The method's own answer, in the context of the call's span.
  abbrev pub own_answer : GoContext → Request → Process S E → Result E R × S
  own_answer ctx req p = f (start_server_span around ctx req) req p.app

  counted_lines :
      (ctx : GoContext) (req : Request) (start end : ℕ) (answer : Result E R)
      → (error_lines
            (request_lines around ctx req start ++ response_lines around ctx req start end answer)
          ≡ failures (error_of answer))
        × (length
              (request_lines around ctx req start ++ response_lines around ctx req start end answer)
            ≡ (if is_sampled (some ctx.logged) then 2 else failures (error_of answer)))
  counted_lines ctx req start end (ok r) = elim (Bool-cases (is_sampled (some ctx.logged))) [
    | inl on ↦ rw on (refl, refl)
    | inr off ↦ rw off (refl, refl)
  ]
  counted_lines ctx req start end (err e) = elim (Bool-cases (is_sampled (some ctx.logged))) [
    | inl on ↦ rw on (refl, refl)
    | inr off ↦ rw off (refl, refl)
  ]

  -- The wrappers, put around the method in the order metrics, trace, log, change nothing of a call: the
  -- answer and the service's state are those of the method in the context of the call's span. They add one
  -- span, which carries the call's error if there is one, one entry of the metrics, and some lines: one
  -- error line if the call fails and none if it does not, and two lines in all if the context is
  -- sampled, or else the error line only. If connect.CodeOf gives "unknown" for no error, the metrics
  -- count a call that fails under the code of its error, and one that succeeds under "unknown".
  pub served-own_answer :
      (ctx : GoContext) (req : Request) (p : Process S E)
      → around.code_of none ≡ "unknown"
      → ((served ctx req p).0 ≡ (own_answer ctx req p).0)
        × ((served ctx req p).1.app ≡ (own_answer ctx req p).1)
        × ((served ctx req p).1.metrics
            ≡ p.metrics
              ++ (service_name_from_env around.env
                  ∷ req.procedure
                  ∷ counted_code (own_answer ctx req p).0
                  ∷ [])
                ∷ [])
        × ((span : EndedSpan E) × ((served ctx req p).1.spans ≡ p.spans ++ span ∷ [])
            × (span.name ≡ req.procedure)
            × (span.error ≡ error_of (own_answer ctx req p).0))
        × ((lines : List LogLine) × ((served ctx req p).1.lines ≡ p.lines ++ lines)
            × (error_lines lines ≡ failures (error_of (own_answer ctx req p).0))
            × (length lines ≡ (
                if is_sampled (some (start_server_span around ctx req).logged)
                then 2
                else failures (error_of (own_answer ctx req p).0))))
  unfolding served server_traced measured logged
  served-own_answer ctx req p unknown =
      let start = around.now p in
      let ctx' = start_server_span around ctx req in
      let before = request_lines around ctx' req start in
      let end = method_call f ctx' req (record p { lines = p.lines ++ before }) in
      let after = response_lines around ctx' req start (around.now end.1) end.0 in
      let (errors, all) = counted_lines ctx' req start (around.now end.1) end.0 in
      (
        refl,
        refl,
        ap (λ c. p.metrics ++ (service_name_from_env around.env ∷ req.procedure ∷ c ∷ []) ∷ [])
            (counted-code_of end.0 unknown),
        (_, refl, refl, refl),
        (before ++ after, append_assoc p.lines before after, errors, all),
      )
