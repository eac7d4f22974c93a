-- ===== src/Interceptor/Calls.antt =====
-- interceptor/trace.go, interceptor/metrics.go and interceptor/req_rsp_logger.go: the wrappers that
-- record a call. The clock is a function of the process before and after the call.
pub mod Stack
use Prim.Native.Char.{Char}
use lunaship.Base.{
  ℕ, ◌-◌, ◌+◌, ◌%◌, String, Bool, true, false, not, Option, none, some, List, [], ◌∷◌, ◌++◌, ◌≡◌,
  refl, ◌↔◌, Result, ok, err, if◌then◌else◌, arith, Result-cases, Bool-cases, inl, inr,
}
use lunaship.Base.Int.{pos}
use lunaship.Base.Text.{trim_space, is_empty, str_or_default}
use lunaship.Log.{Field}
use lunaship.Log.Context.{is_sampled}
use lunaship.Telemetry.{
  Scalar, text_of, int_of, GoContext, Otel, start_span, EndedSpan, LogLine, info_line, error_line,
}
use lunaship.Kafka.Headers.{RecordHeader, get_header, set_header, inject_all}
use lunaship.Interceptor.{Request, Process, UnaryFunc}

abbrev pub remote_service_header : String
remote_service_header = "X-Lunaship-Remote-Service"

unfoldable pub remote_service_from_header : String → String
remote_service_from_header raw = trim_space raw

unfoldable pub service_name_from_env : (String → String) → String
service_name_from_env env = str_or_default (trim_space (env "SERVICE_ID")) "lunaship"

-- What the wrappers need of the process and of the libraries: os.Getenv, the application's name in
-- log.AppIdentity, the code and the text of an error, the texts of requests and responses as zap.Any
-- shows them, and the clock in milliseconds.
pub record Around (S E R : Type 0) : Type 0 where
  pub fold : Char → Char
  pub otel : Otel (List RecordHeader)
  pub env : String → String
  pub app : String
  pub code_of : Option E → String
  pub error_text : E → String
  pub shown_request : Request → String
  pub shown_response : Option R → String
  pub now : Process S E → ℕ

-- The difference of two uint64.
abbrev elapsed : ℕ → ℕ → ℕ
elapsed start end = (end + 18446744073709551616 - start) % 18446744073709551616

abbrev pub error_of : {E R : Type 0} → Result E R → Option E
error_of (ok r) = none
error_of (err e) = some e

abbrev pub response_of : {E R : Type 0} → Result E R → Option R
response_of (ok r) = some r
response_of (err e) = none

module _ {S E R : Type 0} (around : Around S E R) where
  abbrev method_attribute : String → List (Field Scalar)
  method_attribute method = if is_empty method then [] else text_of "http.method" method ∷ []

  abbrev end_span : Request → Result E R → Process S E → Process S E
  end_span req answer p = record p {
    spans =
        p.spans
        ++ record {
          name = req.procedure;
          attributes = text_of "rpc.system" "connect" ∷ method_attribute req.http_method;
          error = error_of answer;
        }
          ∷ [];
  }

  -- startServerSpan: the context of the call.
  unfoldable pub start_server_span : GoContext → Request → GoContext
  start_server_span ctx req =
      start_span around.otel (around.env "APP_NAME") req.procedure
        (around.otel.extract ctx req.headers)

  -- NewTraceInterceptor
  unfoldable pub server_traced : UnaryFunc S E R → UnaryFunc S E R
  server_traced next ctx req p =
      let answer = next (start_server_span ctx req) req p in
      (answer.0, end_span req answer.0 answer.1)

  abbrev name_caller : List RecordHeader → List RecordHeader
  name_caller hs =
      if is_empty around.app then hs else set_header around.fold remote_service_header around.app hs

  -- startClientSpan: the context of the call, and the request with the headers that are set.
  unfoldable pub start_client_span : GoContext → Request → GoContext × Request
  start_client_span ctx req =
      let ctx' = start_span around.otel (around.env "APP_NAME") req.procedure ctx in
      (
        ctx',
        record req {
          headers = inject_all around.fold (around.otel.injected ctx') (name_caller req.headers);
        },
      )

  -- NewTraceClientInterceptor
  unfoldable pub client_traced : UnaryFunc S E R → UnaryFunc S E R
  client_traced next ctx req p =
      let started = start_client_span ctx req in
      let answer = next started.0 started.1 p in (answer.0, end_span req answer.0 answer.1)

  -- NewMetricsInterceptor, once its collectors are registered: the labels of a call, with which the
  -- counter goes up and the duration is observed.
  unfoldable pub measured : UnaryFunc S E R → UnaryFunc S E R
  measured next ctx req p =
      let answer = next ctx req p in
      (
        answer.0,
        record answer.1 {
          metrics =
              answer.1.metrics
              ++ (service_name_from_env around.env
                  ∷ req.procedure
                  ∷ around.code_of (error_of answer.0)
                  ∷ [])
                ∷ [];
        },
      )

  abbrev base_fields : Request → ℕ → List (Field Scalar)
  base_fields req start =
      text_of "_remote_service"
        (remote_service_from_header (get_header around.fold req.headers remote_service_header))
      ∷ text_of "_remote_endpoint" req.procedure
      ∷ text_of "_remote_ip_port" req.peer_addr
      ∷ text_of "_rpc_protocol" req.peer_protocol
      ∷ text_of "_http_method" req.http_method
      ∷ int_of "_start_ms" (pos start)
      ∷ []

  -- The lines of a call: the request, if the context is sampled, and the response.
  abbrev pub request_lines : GoContext → Request → ℕ → List LogLine
  request_lines ctx req start =
      if is_sampled (some ctx.logged)
      then record {
        level = info_line;
        message = "request";
        fields =
            ctx.logged.fields
            ++ base_fields req start
            ++ text_of "_parameters" (around.shown_request req) ∷ [];
      }
        ∷ []
      else []

  abbrev pub response_lines : GoContext → Request → ℕ → ℕ → Result E R → List LogLine
  response_lines ctx req start end (err e) =
      record {
        level = error_line;
        message = "response";
        fields =
            ctx.logged.fields
            ++ base_fields req start
            ++ text_of "_resp" (around.shown_response none)
              ∷ int_of "_dur_ms" (pos (elapsed start end))
              ∷ text_of "_err_code" (around.code_of (some e))
              ∷ text_of "_error" (around.error_text e)
              ∷ [];
      }
      ∷ []
  response_lines ctx req start end (ok r) =
      if is_sampled (some ctx.logged)
      then record {
        level = info_line;
        message = "response";
        fields =
            ctx.logged.fields
            ++ base_fields req start
            ++ text_of "_resp" (around.shown_response (some r))
              ∷ int_of "_dur_ms" (pos (elapsed start end))
              ∷ [];
      }
        ∷ []
      else []

  abbrev put_lines : Process S E → List LogLine → Process S E
  put_lines p lines = record p { lines = p.lines ++ lines }

  -- NewLoggerInterceptor
  unfoldable pub logged : UnaryFunc S E R → UnaryFunc S E R
  logged next ctx req p =
      let start = around.now p in
      let answer = next ctx req (put_lines p (request_lines ctx req start)) in
      (answer.0, put_lines answer.1 (response_lines ctx req start (around.now answer.1) answer.0))
