-- ===== src/Log/Identity.antt =====
-- log/required_fields_core.go: the required fields, read from the environment. `atoi` is
-- strconv.Atoi, `split_host_port` is net.SplitHostPort, `env` is os.Getenv.
use lunaship.Base.{ℕ, String, Option, none, some, List, [], ◌∷◌, if◌then◌else◌, eqb}
use lunaship.Base.Int.{ℤ, pos}
use lunaship.Base.Text.{trim_space, is_empty}
use lunaship.Base.Head.{has_prefix_char, tail_text}
use lunaship.Log.{Field, string, other}

unfoldable pub first_non_empty : List String → String
first_non_empty [] = ""
first_non_empty (value ∷ rest) = if is_empty value then first_non_empty rest else value

-- The libraries' parsers.
pub record Parsers : Type 0 where
  pub atoi : String → Option ℤ
  pub split_host_port : String → Option (String × String)

abbrev pub positive : Option ℤ → ℕ
positive (some (pos n)) = n
positive _ = 0

-- strings.TrimSpace of os.Getenv.
abbrev pub read_env : (String → String) → String → String
read_env env name = trim_space (env name)

-- appName, appIP and appPort.
pub record AppIdentity : Type 0 where
  pub name : String
  pub ip : String
  pub port : ℕ

module _ (parsers : Parsers) where
  unfoldable pub parse_positive_int : String → ℕ
  parse_positive_int raw = positive (parsers.atoi raw)

  abbrev of_host_port : String → Option (String × String) → String × ℕ
  of_host_port bind_addr none = ("", parse_positive_int bind_addr)
  of_host_port bind_addr (some (host, port)) =
      (trim_space host, parse_positive_int (trim_space port))

  unfoldable pub parse_bind_address : String → String × ℕ
  parse_bind_address bind_addr =
      if is_empty bind_addr
      then ("", 0)
      else if has_prefix_char ":" bind_addr
      then ("", parse_positive_int (tail_text bind_addr))
      else of_host_port bind_addr (parsers.split_host_port bind_addr)

  unfoldable pub identity_from_env : (String → String) → AppIdentity
  identity_from_env env =
      let ip = first_non_empty (read_env env "APP_IP" ∷ read_env env "POD_IP" ∷ []) in
      let port = parse_positive_int (read_env env "APP_PORT") in
      let bind = parse_bind_address (read_env env "BIND_ADDR") in
      record {
        name = first_non_empty (
            read_env env "APP_NAME"
            ∷ read_env env "SERVICE_ID"
            ∷ read_env env "OTEL_SERVICE_NAME"
            ∷ []);
        ip = if is_empty ip then bind.0 else ip;
        port = if eqb port 0 then bind.1 else port;
      }

  -- The fields; a number is held as such.
  unfoldable pub default_injected_fields_from_env : (String → String) → List (Field ℕ)
  default_injected_fields_from_env env =
      let id = identity_from_env env in
      record {
        key = "_env";
        value = string (
            first_non_empty
              (read_env env "APP_ENV" ∷ read_env env "DEPLOY_ENV" ∷ read_env env "ENV" ∷ []));
      }
      ∷ record { key = "_app"; value = string id.name }
      ∷ record { key = "_app_ip"; value = string id.ip }
      ∷ record { key = "_app_port"; value = other id.port }
      ∷ record { key = "_trace_id"; value = string "" }
      ∷ record { key = "_span_id"; value = string "" }
      ∷ []
