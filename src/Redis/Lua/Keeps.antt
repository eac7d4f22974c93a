-- ===== src/Redis/Lua/Keeps.antt =====
-- redis/lua.go: what one step of an executor keeps, by the answer of the server.
use lunaship.Base.{
  Bool, Result, err, ok, suc, String, true, false, none, ◌≡◌, refl, ◌⊎◌, inl, inr, arith,
  Bool-cases,
}
use lunaship.Base.Text.{is_empty}
use lunaship.Redis.Lua.{Client, LuaExecutor, fast_path, slow_path, prepare_lua_script, reload}

module _ {E : Type 0} where
  abbrev pub IsRefused : {R : Type 0} → Result E R → Type 0
  IsRefused (err e) = Unit
  IsRefused (ok reply) = ⊥

  -- The server gives no digest: an error, or the empty text.
  abbrev pub IsUnloaded : Result E String → Type 0
  IsUnloaded (err e) = Unit
  IsUnloaded (ok sha) = is_empty sha ≡ true

  -- The server gives the empty text for a digest.
  abbrev pub IsBlank : Result E String → Type 0
  IsBlank (err e) = ⊥
  IsBlank (ok sha) = is_empty sha ≡ true

  pub IsRefused-cases :
      {R : Type 0} → (answer : Result E R) → IsRefused answer ⊎ ((r : R) × (answer ≡ ok r))
  IsRefused-cases (err e) = inl tt
  IsRefused-cases (ok r) = inr (r, refl)

  pub IsUnloaded-cases :
      (answer : Result E String)
      → IsUnloaded answer ⊎ ((sha : String) × (answer ≡ ok sha) × (is_empty sha ≡ false))
  IsUnloaded-cases (err e) = inl tt
  IsUnloaded-cases (ok sha) = elim (Bool-cases (is_empty sha)) [
    | inl blank ↦ inl blank
    | inr known ↦ inr (sha, refl, known)
  ]

  pub IsBlank-cases :
      (answer : Result E String)
      → IsBlank answer
        ⊎ (((e : E) × (answer ≡ err e))
            ⊎ ((sha : String) × (answer ≡ ok sha) × (is_empty sha ≡ false)))
  IsBlank-cases (err e) = inr (inl (e, refl))
  IsBlank-cases (ok sha) = elim (Bool-cases (is_empty sha)) [
    | inl blank ↦ inl blank
    | inr known ↦ inr (inr (sha, refl, known))
  ]

-- What a step of the executor keeps.
pub record IsSame {C E R : Type 0} (l l' : LuaExecutor C E R) : Type 0 where
  pub client : l'.has_client ≡ l.has_client
  pub plain : l'.resp_fn ≡ l.resp_fn

module _ {C E R A : Type 0} (redis : Client C E R A) where
  pub fast_path-keeps :
      (a : A) (l : LuaExecutor C E R)
      → IsSame l (fast_path redis a l).1
        × ((fast_path redis a l).1.sha ≡ l.sha)
        × ((fast_path redis a l).1.reloads ≡ l.reloads)
  unfolding fast_path
  fast_path-keeps a l = ground arith

  pub slow_path-reloads :
      (a : A) (l : LuaExecutor C E R) (reply : R)
      → l.resp_fn ≡ none
      → (redis.eval l.script a l.server).0 ≡ ok reply
      → IsSame l (slow_path redis a l).1 × ((slow_path redis a l).1.reloads ≡ suc l.reloads)
  unfolding slow_path
  slow_path-reloads a l reply plain good = ground arith

  pub reload-loads :
      (ctx_done : Bool) (l : LuaExecutor C E R) (sha : String)
      → l.has_client ≡ true
      → (redis.script_load ctx_done l.script l.server).0 ≡ ok sha
      → is_empty sha ≡ false
      → IsSame l (reload redis ctx_done l) × (is_empty (reload redis ctx_done l).sha ≡ false)
  unfolding reload prepare_lua_script
  reload-loads ctx_done l sha client good known = ground arith

  pub prepare-keeps :
      (ctx_done : Bool) (l : LuaExecutor C E R) (e : E)
      → l.has_client ≡ true
      → (redis.script_load ctx_done l.script l.server).0 ≡ err e
      → IsSame l (prepare_lua_script redis ctx_done l).1
        × ((prepare_lua_script redis ctx_done l).1.sha ≡ l.sha)
        × ((prepare_lua_script redis ctx_done l).1.reloads ≡ l.reloads)
  unfolding prepare_lua_script
  prepare-keeps ctx_done l e client bad = ground arith

  pub prepare-loads :
      (ctx_done : Bool) (l : LuaExecutor C E R) (sha : String)
      → l.has_client ≡ true
      → (redis.script_load ctx_done l.script l.server).0 ≡ ok sha
      → IsSame l (prepare_lua_script redis ctx_done l).1
        × ((prepare_lua_script redis ctx_done l).1.sha ≡ sha)
  unfolding prepare_lua_script
  prepare-loads ctx_done l sha client good = ground arith
