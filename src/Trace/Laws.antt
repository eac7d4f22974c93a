-- ===== src/Trace/Laws.antt =====
-- trace/trace.go: what InitTracingFromEnv and CloseTracing do after one another.
use lunaship.Base.{
  String, true, false, Option, none, some, ok, ◌≡◌, arith, Bool-cases, inl, inr, subst, ap,
  Result-cases,
}
use lunaship.Infra.Tracing.{TraceConfig}
use lunaship.Infra.Tracing.Init.{Provider, Globals, Libraries}
use lunaship.Infra.Tracing.Laws.{IsUnitOrder, Installs, init_tracing-Installs}
use lunaship.Trace.{init_tracing, close_tracing, init_tracing_from_env, load_trace_config_from_env}

module _ {E F : Type 0} (libs : Libraries E F) where
  -- InitTracing without an error and without a closer has been told that tracing is not enabled.
  init_tracing-disabled :
      (conf : TraceConfig F) (g : Globals F)
      → (init_tracing libs conf g).0 ≡ ok none
      → conf.enabled ≡ false
  unfolding lunaship.Infra.Tracing.Init.init_tracing
  init_tracing-disabled conf g e = ground (arith, Bool-cases conf.enabled)

  close_tracing-some :
      (shutdown : Provider F → Option E) (g : Globals F) (p : Provider F)
      → g.closer ≡ some p
      → close_tracing shutdown g ≡ (some p, shutdown p)
  unfolding lunaship.Infra.Tracing.Init.close_tracing
  close_tracing-some shutdown g p there = ground (arith, there)

  -- If InitTracingFromEnv answers no error while the environment enables tracing, there is a provider that
  -- is installed and that a following CloseTracing shuts down, whose answer is that of the shutdown.
  pub init-close_tracing :
      (env : String → String) (parse_float : String → Option F) (g : Globals F)
      (shutdown : Provider F → Option E)
      → IsUnitOrder libs.float
      → (load_trace_config_from_env env libs.float libs.is_zero parse_float).0.enabled ≡ true
      → (init_tracing_from_env libs env parse_float g).0 ≡ none
      → (p : Provider F) × ((init_tracing_from_env libs env parse_float g).1.provider ≡ some p)
        × (close_tracing shutdown (init_tracing_from_env libs env parse_float g).1
            ≡ (some p, shutdown p))
  unfolding lunaship.Infra.Tracing.Init.init_tracing_from_env
  init-close_tracing env parse_float g shutdown o on fine =
      let conf = (load_trace_config_from_env env libs.float libs.is_zero parse_float).0 in
      let g' : Globals F = record g { error_log_disabled = conf.error_log_disabled } in
      let installed = init_tracing-Installs libs conf g' o in
      elim (Result-cases (init_tracing libs conf g').0) [
        | inl (e, bad) ↦ ground (arith, bad)
        | inr (none, good) ↦ ground (arith, on, init_tracing-disabled conf g' good)
        | inr (some p, good) ↦
            let there =
              subst (λ a. Installs libs conf a g' (init_tracing libs conf g').1) good installed in
            (
              p,
              ap (λ (w : Globals F). w.provider) there.1,
              close_tracing-some shutdown _ p (ap (λ (w : Globals F). w.closer) there.1),
            )
      ]
