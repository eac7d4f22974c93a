-- ===== src/Interceptor.antt =====
-- The package interceptor: what is wrapped around the unary calls of a service. A call is a function
-- of the context, the request and the process, which it changes; connect's types are held as the parts
-- of them that are read.
pub mod Counter
pub mod RateLimit
pub mod Calls
pub mod Samples
use lunaship.Base.{String, Option, List, Result}
use lunaship.Telemetry.{GoContext, LogLine, EndedSpan}
use lunaship.Kafka.Headers.{RecordHeader}

-- connect.AnyRequest
pub record Request : Type 0 where
  pub procedure : String
  pub peer_addr : String
  pub peer_protocol : String
  pub http_method : String
  pub headers : List RecordHeader

-- The process around a call: the state `S` of the service, and what has been recorded.
pub record Process (S E : Type 0) : Type 0 where
  pub app : S
  pub lines : List LogLine
  pub spans : List (EndedSpan E)
  pub metrics : List (List String)

-- connect.UnaryFunc
abbrev pub UnaryFunc : Type 0 → Type 0 → Type 0 → Type 0
UnaryFunc S E R = GoContext → Request → Process S E → Result E R × Process S E
