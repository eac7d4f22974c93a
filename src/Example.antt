-- ===== src/Example.antt =====
-- example/logs/dummy_service.go: the methods of the demonstration service on the executor of Redis.
-- The client of Redis, the database, JSON and the remote service are parameters; texts of errors are
-- left out.
use Prim.Native.String.{◌++◌ as ◌<>◌}
use lunaship.Base.{
  ℕ, String, Bool, true, false, not, Option, none, some, List, Result, ok, err, if◌then◌else◌, ◌==◌,
  ◌||◌, ltb, eqb, map,
}
use lunaship.Base.Text.{trim_space, is_empty, str_or_default}
use lunaship.Base.Scan.{has_prefix, trim_right_char}
use lunaship.Log.Context.{Context, trace_from_context}
use lunaship.Redis.Lua.{
  Client, LuaExecutor, LuaError, caused, new_lua_executor, prepare_lua_script, update_one_event,
}

pub data DummyError (E : Type 0) : Type 0 where
  invalid_argument unavailable : (message : String) → DummyError E
  bad_request internal remote : E → DummyError E
  redis_failed : LuaError E → DummyError E

-- PingResponse
pub record Pong : Type 0 where
  pub message : String
  pub trace_id : String
  pub span_id : String

abbrev trace_ids : Option (String × String) → String × String
trace_ids none = ("", "")
trace_ids (some ids) = ids

unfoldable pub ping : {V : Type 0} → Option (Context V) → String → Pong
ping ctx message =
    let (trace_id, span_id) = trace_ids (trace_from_context ctx) in
    record { message = str_or_default message "pong"; trace_id = trace_id; span_id = span_id }

unfoldable pub base_url : String → String
base_url target =
    let addr = trim_space target in
    if has_prefix addr "http://" || has_prefix addr "https://"
    then trim_right_char "/" addr
    else "http://" <> trim_right_char "/" addr

-- TransferRequest
pub record TransferRequest : Type 0 where
  pub target_addr : String
  pub endpoint : String
  pub request_json : String

abbrev with_slash : String → String
with_slash endpoint = if has_prefix endpoint "/" then endpoint else "/" <> endpoint

-- protojson, and Ping of the service at an URL.
pub record Remote (E Q R : Type 0) : Type 0 where
  pub procedure : String
  pub unmarshal : String → Result E Q
  pub call : (url : String) → Q → Result E R
  pub marshal : R → Result E String

module _ {E Q R : Type 0} (remote_service : Remote E Q R) where
  abbrev marshalled : R → Result (DummyError E) String
  marshalled resp = elim (remote_service.marshal resp) [
    | err e ↦ err (internal e)
    | ok text ↦ ok text
  ]

  -- The call, behind the checks of the arguments.
  unfoldable pub forward : String → String → Result (DummyError E) String
  forward target json = elim (remote_service.unmarshal (str_or_default json "{}")) [
    | err e ↦ err (bad_request e)
    | ok request ↦ elim (remote_service.call (base_url target) request) [
      | err e ↦ err (remote e)
      | ok resp ↦ marshalled resp
    ]
  ]

  unfoldable pub transfer : TransferRequest → Result (DummyError E) String
  transfer req =
      let target = trim_space req.target_addr in
      let endpoint = trim_space req.endpoint in
      if is_empty target
      then err (invalid_argument "target_addr is required")
      else if is_empty endpoint
      then err (invalid_argument "endpoint is required")
      else if not (with_slash endpoint == remote_service.procedure)
      then err (invalid_argument "unsupported endpoint")
      else forward target (trim_space req.request_json)

-- DummyService: whether luaOnce has run, its error, and its executor.
pub record DummyService (C E R : Type 0) : Type 0 where
  pub lua_done : Bool
  pub lua_error : Option (LuaError E)
  pub lua_exec : LuaExecutor C E R

module _ {C E R A : Type 0} (client : Client C E R A) where
  -- The function that luaOnce runs; `server` is the state of the server behind the global client.
  unfoldable pub make_executor : C → DummyService C E R
  make_executor server =
      let answer =
        prepare_lua_script client false
          (new_lua_executor true "return redis.call(\"INCR\", KEYS[1])" none server) in
      record { lua_done = true; lua_error = answer.0; lua_exec = answer.1 }

  unfoldable pub prepare_redis_lua : DummyService C E R → Option (LuaError E) × DummyService C E R
  prepare_redis_lua s = elim s.lua_done [
    | true ↦ (s.lua_error, s)
    | false ↦ let made = make_executor s.lua_exec.server in (made.lua_error, made)
  ]

  abbrev count_event :
      A → Option (LuaError E) × DummyService C E R → Option (LuaError E) × DummyService C E R
  count_event keys (some e, s) = (some e, s)
  count_event keys (none, s) =
      let answer = update_one_event client keys s.lua_exec in
      (answer.0, record s { lua_exec = answer.1 })

  abbrev put_server : C → DummyService C E R → DummyService C E R
  put_server server s = record s { lua_exec = record s.lua_exec { server = server } }

  abbrev then_lua : A → Option E × C → DummyService C E R → Option (LuaError E) × DummyService C E R
  then_lua keys (some e, server) s = (some (caused e), put_server server s)
  then_lua keys (none, server) s = count_event keys (prepare_redis_lua (put_server server s))

  abbrev then_get :
      (C → Option E × C)
      → A
      → Option E × C
      → DummyService C E R
      → Option (LuaError E) × DummyService C E R
  then_get get keys (some e, server) s = (some (caused e), put_server server s)
  then_get get keys (none, server) s = then_lua keys (get server) s

  -- exerciseRedis with a global client: `set` and `get` are its two commands.
  unfoldable pub exercise_redis :
      (set get : C → Option E × C)
      → A
      → DummyService C E R
      → Option (LuaError E) × DummyService C E R
  exercise_redis set get keys s = then_get get keys (set s.lua_exec.server) s

-- The rows that GetSpot asks for; a missing limit is 0.
unfoldable pub page_limit : ℕ → ℕ
page_limit limit = if eqb limit 0 then 10 else if ltb 200 limit then 200 else limit

-- SpotModel, and the message Spot.
pub record SpotModel : Type 0 where
  pub id : ℕ
  pub account_id : ℕ
  pub currency : String
  pub deposit : String
  pub frozen : String
  pub version : ℕ
  pub create_time : ℕ
  pub update_time : ℕ

pub record Spot : Type 0 where
  pub id : ℕ
  pub account_id : ℕ
  pub currency : String
  pub deposit : String
  pub frozen : String
  pub version : ℕ
  pub create_time : ℕ
  pub update_time : ℕ

unfoldable pub to_proto_spot : SpotModel → Spot
to_proto_spot row = record {
  id = row.id;
  account_id = row.account_id;
  currency = row.currency;
  deposit = row.deposit;
  frozen = row.frozen;
  version = row.version;
  create_time = row.create_time;
  update_time = row.update_time;
}

-- The query of the database, by the limit and the offset.
abbrev pub FindSpots : Type 0 → Type 0
FindSpots E = ℕ → ℕ → Result E (List SpotModel)

module _ {E : Type 0} where
  abbrev spots : Result E (List SpotModel) → Result (DummyError E) (List Spot)
  spots (err e) = err (internal e)
  spots (ok rows) = ok (map to_proto_spot rows)

  -- GetSpot behind exerciseRedis, with the database if there is one.
  unfoldable pub find_spots :
      Option (FindSpots E) → (limit offset : ℕ) → Result (DummyError E) (List Spot)
  find_spots none limit offset = err (unavailable "mysql is not initialized")
  find_spots (some find) limit offset = spots (find (page_limit limit) offset)

module _ {C E R A : Type 0} (client : Client C E R A) where
  abbrev answer_spots :
      Option (FindSpots E)
      → (limit offset : ℕ) → Option (LuaError E) × DummyService C E R
      → Result (DummyError E) (List Spot) × DummyService C E R
  answer_spots find limit offset (some e, s) = (err (redis_failed e), s)
  answer_spots find limit offset (none, s) = (find_spots find limit offset, s)

  -- GetSpot; `has_client` tells whether there is a global client.
  unfoldable pub get_spot :
      (has_client : Bool)
      → (set get : C → Option E × C) → A
      → Option (FindSpots E)
      → (limit offset : ℕ) → DummyService C E R
      → Result (DummyError E) (List Spot) × DummyService C E R
  get_spot false set get keys find limit offset s =
      (err (unavailable "redis is not initialized"), s)
  get_spot true set get keys find limit offset s =
      answer_spots find limit offset (exercise_redis client set get keys s)
