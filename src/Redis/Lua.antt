-- ===== src/Redis/Lua.antt =====
-- redis/lua.go: LuaExecutor runs a script by its digest (the fast path), by its text if that fails
-- (the slow path), and reloads it behind the call. The redis client is a parameter; logging is left
-- out. A call of UpdateOneEvent is one step, the reload that it started is another.
pub mod Laws
pub mod Concurrent
pub mod Keeps
use lunaship.Base.{
  ℕ, zero, suc, String, Bool, true, false, Option, none, some, if◌then◌else◌, Result, ok, err,
}
use lunaship.Base.Text.{is_empty}

-- The client: `C` is the state of the server, `E` an error, `R` a reply, `A` the keys and the
-- arguments of a call. `is_noscript` is redis.HasErrorPrefix for "NOSCRIPT".
pub record Client (C E R A : Type 0) : Type 0 where
  pub eval_sha : String → A → C → Result E R × C
  pub eval : String → A → C → Result E R × C
  pub script_load : (ctx_done : Bool) → String → C → Result E String × C
  pub is_noscript : E → Bool

pub data LuaError (E : Type 0) : Type 0 where
  client_is_nil sha_is_empty : LuaError E
  caused : E → LuaError E

-- LuaExecutor, the server behind its client, and the reloads started and not yet run.
pub record LuaExecutor (C E R : Type 0) : Type 0 where
  pub has_client : Bool
  pub script : String
  pub sha : String
  pub resp_fn : Option (R → Option E)
  pub server : C
  pub reloads : ℕ

abbrev pub caused_by : {E : Type 0} → Option E → Option (LuaError E)
caused_by none = none
caused_by (some e) = some (caused e)

-- respFn, where there is one.
abbrev pub respond : {E R : Type 0} → Option (R → Option E) → R → Option (LuaError E)
respond none reply = none
respond (some f) reply = caused_by (f reply)

unfoldable pub new_lua_executor :
    {C E R : Type 0} → Bool → String → Option (R → Option E) → C → LuaExecutor C E R
new_lua_executor has_client script resp_fn server = record {
  has_client = has_client;
  script = script;
  sha = "";
  resp_fn = resp_fn;
  server = server;
  reloads = 0;
}

module _ {C E R A : Type 0} (redis : Client C E R A) where
  -- What a step returns, and the executor that it leaves.
  abbrev Outcome : Type 0
  Outcome = Option (LuaError E) × LuaExecutor C E R

  -- `ctx_done` tells whether the context that is passed is done.
  unfoldable pub prepare_lua_script : (ctx_done : Bool) → LuaExecutor C E R → Outcome
  prepare_lua_script ctx_done l = elim l.has_client [
    | false ↦ (some client_is_nil, l)
    | true ↦
        let answer = redis.script_load ctx_done l.script l.server in
        elim answer.0 [
          | err e ↦ (some (caused e), record l { server = answer.1 })
          | ok sha ↦ (none, record l { sha = sha; server = answer.1 })
        ]
  ]

  unfoldable pub fast_path : A → LuaExecutor C E R → Outcome
  fast_path a l = elim (is_empty l.sha) [
    | true ↦ (some sha_is_empty, l)
    | false ↦
        let answer = redis.eval_sha l.sha a l.server in
        elim answer.0 [
          | err e ↦ (some (caused e), record l { server = answer.1 })
          | ok reply ↦ (respond l.resp_fn reply, record l { server = answer.1 })
        ]
  ]

  unfoldable pub slow_path : A → LuaExecutor C E R → Outcome
  slow_path a l =
      let answer = redis.eval l.script a l.server in
      elim answer.0 [
        | err e ↦ (some (caused e), record l { server = answer.1 })
        | ok reply ↦ elim l.resp_fn [
          | some f ↦ (caused_by (f reply), record l { server = answer.1 })
          | none ↦ (none, record l { server = answer.1; reloads = suc l.reloads })
        ]
      ]

  -- The digest is forgotten if the server does not know it.
  abbrev pub forget : LuaError E → LuaExecutor C E R → LuaExecutor C E R
  forget client_is_nil l = l
  forget sha_is_empty l = l
  forget (caused e) l = if redis.is_noscript e then record l { sha = "" } else l

  -- UpdateOneEvent from the answer of the fast path on.
  unfoldable pub after_fast : A → Outcome → Outcome
  after_fast a (none, l) = (none, l)
  after_fast a (some e, l) = slow_path a (forget e l)

  unfoldable pub update_one_event : A → LuaExecutor C E R → Outcome
  unfolding after_fast fast_path
  update_one_event a l = after_fast a (fast_path a l)

  -- The body of one started reload, under the mutex: nothing if the digest is back. It is given the context of
  -- the call that started it, which may be done when it runs.
  unfoldable pub reload : (ctx_done : Bool) → LuaExecutor C E R → LuaExecutor C E R
  unfolding prepare_lua_script
  reload ctx_done l = elim (is_empty l.sha) [ false ↦ l | true ↦ (prepare_lua_script ctx_done l).1 ]
