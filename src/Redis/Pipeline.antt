-- ===== src/Redis/Pipeline.antt =====
-- redis/hook.go: the addresses of the hook, and its wrappers around a command and around a pipeline.
-- The client that a wrapper calls is a function on the server's state `S`; the durations are arguments.
use Prim.Native.Char.{Char}
use Prim.Native.String.{◌++◌ as ◌<>◌}
use lunaship.Base.{
  ℕ, String, Bool, true, false, not, Option, none, some, List, [], ◌∷◌, ◌++◌, if◌then◌else◌, ◌||◌,
  length,
}
use lunaship.Base.Int.{ℤ, pos, ltb_ℤ}
use lunaship.Base.Text.{trim_space, is_empty}
use lunaship.Base.Net.{parse_port, split_host_port, split_inside, milliseconds}
use lunaship.Log.{Field}
use lunaship.Telemetry.{
  Scalar, text_of, int_of, bool_of, GoContext, SpanContext, info_line, error_line, LogLine,
  EndedSpan,
}
use lunaship.Redis.Hook.{
  Cmder, CmdError, nil_reply, failed, is_redis_nil_reply, command_name, CommandSpan, CommandLine,
  end_command_span, log_command,
}

unfoldable pub parse_redis_addr : String → String × ℤ
parse_redis_addr addr =
    let trimmed = trim_space addr in
    if is_empty trimmed then ("", pos 0) else elim (split_host_port trimmed) [
      | some (host, port) ↦ (trim_space host, parse_port port)
      | none ↦ elim (split_inside trimmed) [
        | some (before, after) ↦ (trim_space before, parse_port after)
        | none ↦ (trimmed, pos 0)
      ]
    ]

-- The first address with a host or a port.
unfoldable pub parse_redis_addrs : List String → String × ℤ
parse_redis_addrs [] = ("", pos 0)
parse_redis_addrs (addr ∷ addrs) =
    let rest = parse_redis_addrs addrs in
    let (host, port) = parse_redis_addr addr in
    if not (is_empty host) || ltb_ℤ (pos 0) port then (host, port) else rest

-- redisTraceLogHook; its tracer answers the context of a new span.
pub record TraceLogHook : Type 0 where
  pub instance_ip : String
  pub instance_port : ℤ

unfoldable pub new_redis_trace_log_hook : List String → TraceLogHook
new_redis_trace_log_hook addrs =
    let (host, port) = parse_redis_addrs addrs in
    record { instance_ip = host; instance_port = port }

abbrev in_span : (String → GoContext → SpanContext) → String → GoContext → GoContext
in_span start name ctx = record ctx { span = start name ctx }

-- ProcessHook: what the command answers, and the span and the line of it.
unfoldable pub process_hook :
    {S E : Type 0}
    → (String → GoContext → SpanContext)
    → (lower : Char → Char) → (GoContext → Option Cmder → S → Option (CmdError E) × S)
    → GoContext
    → Option Cmder
    → S
    → Option (CmdError E) × S × CommandSpan lower E × CommandLine lower E
process_hook start lower next ctx cmd s =
    let (error, s') = next (in_span start ("redis." <> command_name lower cmd) ctx) cmd s in
    (error, s', end_command_span lower cmd error, log_command lower cmd error)

abbrev own_error : {E : Type 0} → Option (CmdError E) → Option E
own_error (some (failed e)) = some e
own_error _ = none

abbrev is_failure : {E : Type 0} → Option (CmdError E) → Bool
is_failure (some (failed e)) = true
is_failure _ = false

unfoldable pub pipeline_span :
    {E : Type 0} → TraceLogHook → ℕ → ℤ → Option (CmdError E) → EndedSpan E
pipeline_span h size duration error = record {
  name = "redis.pipeline";
  attributes =
      text_of "target_type" "redis"
      ∷ text_of "remote.ip" h.instance_ip
      ∷ int_of "remote.port" h.instance_port
      ∷ int_of "redis.command_count" (pos size)
      ∷ bool_of "error.flag" (is_failure error)
      ∷ bool_of "redis.nil_reply" (is_redis_nil_reply error)
      ∷ int_of "duration.ms" (milliseconds duration)
      ∷ [];
  error = own_error error;
}

module _ {E : Type 0} (h : TraceLogHook) (error_text : E → String) where
  abbrev last_field : Option (CmdError E) → List (Field Scalar)
  last_field none = []
  last_field (some nil_reply) = bool_of "_redis_nil_reply" true ∷ []
  last_field (some (failed e)) = text_of "_error" (error_text e) ∷ []

  unfoldable pub pipeline_line : GoContext → ℕ → ℤ → Option (CmdError E) → LogLine
  pipeline_line ctx size duration error = record {
    level = if is_failure error then error_line else info_line;
    message = "REDIS";
    fields =
        ctx.logged.fields
        ++ text_of "_instance_ip" h.instance_ip
          ∷ int_of "_instance_port" h.instance_port
          ∷ int_of "_redis_pipeline_cmd_count" (pos size)
          ∷ int_of "_dur_ms" (milliseconds duration)
          ∷ last_field error;
  }

  -- ProcessPipelineHook
  unfoldable pub process_pipeline_hook :
      {S : Type 0}
      → (String → GoContext → SpanContext)
      → (GoContext → List Cmder → S → Option (CmdError E) × S)
      → ℤ
      → GoContext
      → List Cmder
      → S
      → Option (CmdError E) × S × EndedSpan E × LogLine
  process_pipeline_hook start next duration ctx cmds s =
      let ctx' = in_span start "redis.pipeline" ctx in
      let (error, s') = next ctx' cmds s in
      let size = length cmds in
      (error, s', pipeline_span h size duration error, pipeline_line ctx' size duration error)
