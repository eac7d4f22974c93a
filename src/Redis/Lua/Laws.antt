-- ===== src/Redis/Lua/Laws.antt =====
-- redis/lua.go: what one call does to the server, and what any number of calls and reloads do to
-- the digest.
use lunaship.Base.{
  Bool, ◌⊎◌, Bool-cases, ℕ, suc, String, true, false, none, some, ◌≡◌, refl, ◌≢◌, inl, inr, arith,
  if◌then◌else◌, ok, err, Option-cases, Result-cases, ◌∙◌, ap,
}
use lunaship.Base.Text.{is_empty}
use lunaship.Redis.Lua.{
  Client, LuaExecutor, caused, respond, prepare_lua_script, fast_path, slow_path, after_fast,
  update_one_event, reload,
}

module _ {C E R A : Type 0} (redis : Client C E R A) where
  fast_path-ran :
      (a : A) (l : LuaExecutor C E R) (reply : R)
      → is_empty l.sha ≡ false
      → (redis.eval_sha l.sha a l.server).0 ≡ ok reply
      → fast_path redis a l
        ≡ (respond l.resp_fn reply, record l { server = (redis.eval_sha l.sha a l.server).1 })
  unfolding fast_path
  fast_path-ran a l reply known ran = rw (known, ran, fast_path)

  fast_path-missed :
      (a : A) (l : LuaExecutor C E R) (e : E)
      → is_empty l.sha ≡ false
      → (redis.eval_sha l.sha a l.server).0 ≡ err e
      → fast_path redis a l
        ≡ (some (caused e), record l { server = (redis.eval_sha l.sha a l.server).1 })
  unfolding fast_path
  fast_path-missed a l e known missed = rw (known, missed, fast_path)

  -- The slow path leaves the server as the script by its text leaves it, whatever the answer.
  slow_path-server :
      (a : A) (l : LuaExecutor C E R)
      → (slow_path redis a l).1.server ≡ (redis.eval l.script a l.server).1
  unfolding slow_path
  slow_path-server a l = elim (Result-cases (redis.eval l.script a l.server).0) [
    | inl (x, bad) ↦ rw (bad, slow_path)
    | inr (r, good) ↦ elim (Option-cases l.resp_fn) [
      | inl plain ↦ rw (good, plain, slow_path)
      | inr (f, set) ↦ rw (good, set, slow_path)
    ]
  ]

  slow_path-plain :
      (a : A) (l : LuaExecutor C E R) (reply : R)
      → l.resp_fn ≡ none
      → (redis.eval l.script a l.server).0 ≡ ok reply
      → slow_path redis a l
        ≡ (none, record l { server = (redis.eval l.script a l.server).1; reloads = suc l.reloads })
  unfolding slow_path
  slow_path-plain a l reply plain ran = ground arith

  reload-loads :
      (ctx_done : Bool) (l : LuaExecutor C E R) (sha : String)
      → is_empty l.sha ≡ true
      → l.has_client ≡ true
      → (redis.script_load ctx_done l.script l.server).0 ≡ ok sha
      → (reload redis ctx_done l).sha ≡ sha
  unfolding reload prepare_lua_script
  reload-loads ctx_done l sha lost client loaded =
      rw (lost, client, loaded, reload, prepare_lua_script)

  -- If the executor has a digest, the script runs by it and its reply is accepted, the call succeeds, the script has run
  -- once, by its digest, and nothing else has changed.
  pub update-hit :
      (a : A) (l : LuaExecutor C E R) (reply : R)
      → is_empty l.sha ≡ false
      → (redis.eval_sha l.sha a l.server).0 ≡ ok reply
      → respond l.resp_fn reply ≡ none
      → update_one_event redis a l
        ≡ (none, record l { server = (redis.eval_sha l.sha a l.server).1 })
  unfolding update_one_event after_fast
  update-hit a l reply known ran accepted =
      let ran_once = record l { server = (redis.eval_sha l.sha a l.server).1 } in
      ap (after_fast redis a) (fast_path-ran a l reply known ran)
      ∙ ap (λ r. after_fast redis a (r, ran_once)) accepted

  -- If the script has run by its digest and the reply is refused with an error other than NOSCRIPT,
  -- the script is run again, by its text, on the server that the first run left.
  pub update-runs_twice :
      (a : A) (l : LuaExecutor C E R) (reply : R) (e : E)
      → is_empty l.sha ≡ false
      → (redis.eval_sha l.sha a l.server).0 ≡ ok reply
      → respond l.resp_fn reply ≡ some (caused e)
      → redis.is_noscript e ≡ false
      → (update_one_event redis a l).1.server
        ≡ (redis.eval l.script a (redis.eval_sha l.sha a l.server).1).1
  unfolding update_one_event after_fast
  update-runs_twice a l reply e known ran refused other =
      let ran_once = record l { server = (redis.eval_sha l.sha a l.server).1 } in
      let again =
        ap (after_fast redis a) (fast_path-ran a l reply known ran)
        ∙ ap (λ r. after_fast redis a (r, ran_once)) refused
        ∙ ap (λ b. slow_path redis a (if b then record ran_once { sha = "" } else ran_once))
            other in
      ap (λ o. o.1.server) again ∙ slow_path-server a ran_once

  -- One call of UpdateOneEvent, one reload that a call started, or one call of PrepareLuaScript.
  pub data Step (l : LuaExecutor C E R) : LuaExecutor C E R → Type 0 where
    update : (a : A) → Step l (update_one_event redis a l).1
    run_reload :
        (ctx_done : Bool) (n : ℕ)
        → l.reloads ≡ suc n
        → Step l (record (reload redis ctx_done l) { reloads = n })
    prepare : (ctx_done : Bool) → Step l (prepare_lua_script redis ctx_done l).1

  pub data Reach (l : LuaExecutor C E R) : LuaExecutor C E R → Type 0 where
    here : Reach l l
    next : {m n : LuaExecutor C E R} → Reach l m → Step m n → Reach l n

  -- The step is a call of PrepareLuaScript that has been answered with a digest.
  abbrev pub Loads : {l m : LuaExecutor C E R} → Step l m → Type 0
  Loads (update a) = ⊥
  Loads (run_reload ctx_done n e) = ⊥
  Loads {l} (prepare ctx_done) = (prepare_lua_script redis ctx_done l).0 ≡ none

  -- Some step of the run does.
  abbrev pub HasLoaded : {l m : LuaExecutor C E R} → Reach l m → Type 0
  HasLoaded here = ⊥
  HasLoaded (next r s) = HasLoaded r ⊎ Loads s

  -- There is a response function, the digest is lost, and no reload is under way.
  abbrev pub IsStuck : LuaExecutor C E R → Type 0
  IsStuck l = (l.resp_fn ≢ none) × (l.sha ≡ "") × (l.reloads ≡ 0)

  update-IsStuck :
      (a : A) (l : LuaExecutor C E R) → IsStuck l → IsStuck (update_one_event redis a l).1
  unfolding update_one_event after_fast fast_path slow_path
  update-IsStuck a l h = ground arith

  prepare-IsStuck :
      (ctx_done : Bool) (l : LuaExecutor C E R)
      → IsStuck l
      → ((prepare_lua_script redis ctx_done l).0 ≡ none)
        ⊎ IsStuck (prepare_lua_script redis ctx_done l).1
  unfolding prepare_lua_script
  prepare-IsStuck ctx_done l h = elim (Bool-cases l.has_client) [
    | inr missing ↦ inr (rw (missing, prepare_lua_script) h)
    | inl client ↦ elim (Result-cases (redis.script_load ctx_done l.script l.server).0) [
      | inl (x, bad) ↦ inr (rw (client, bad, prepare_lua_script) h)
      | inr (sha, good) ↦ inl (rw (client, good, prepare_lua_script) refl)
    ]
  ]

  Step-IsStuck : {l m : LuaExecutor C E R} → IsStuck l → (s : Step l m) → Loads s ⊎ IsStuck m
  Step-IsStuck h (update a) = inr (update-IsStuck a _ h)
  Step-IsStuck h (run_reload ctx_done n e) = absurd (ground (arith, h))
  Step-IsStuck h (prepare ctx_done) = prepare-IsStuck ctx_done _ h

  -- An executor with a response function whose digest is lost with no reload under way does not get it
  -- back by any calls of UpdateOneEvent and reloads: only a call of PrepareLuaScript that is answered
  -- with a digest ends this.
  pub Reach-IsStuck :
      {l m : LuaExecutor C E R} → IsStuck l → (r : Reach l m) → HasLoaded r ⊎ IsStuck m
  Reach-IsStuck h here = inr h
  Reach-IsStuck h (next r s) = elim (Reach-IsStuck h r) [
    | inl loaded ↦ inl (inl loaded)
    | inr stuck ↦ elim (Step-IsStuck stuck s) [
      | inl loads ↦ inl (inr loads)
      | inr still ↦ inr still
    ]
  ]

  -- Without a response function the script heals: after a call that finds the digest unknown and
  -- succeeds by the text, a reload is under way, and when the server loads the script the reload
  -- sets the digest that it gives.
  pub reload-heals :
      (a : A) (ctx_done : Bool) (l : LuaExecutor C E R) (e : E) (reply : R) (sha : String)
      → l.resp_fn ≡ none
      → l.has_client ≡ true
      → is_empty l.sha ≡ false
      → (redis.eval_sha l.sha a l.server).0 ≡ err e
      → redis.is_noscript e ≡ true
      → (redis.eval l.script a (redis.eval_sha l.sha a l.server).1).0 ≡ ok reply
      → (redis.script_load ctx_done l.script
          (redis.eval l.script a (redis.eval_sha l.sha a l.server).1).1).0
        ≡ ok sha
      → ((update_one_event redis a l).0 ≡ none)
        × ((update_one_event redis a l).1.reloads ≡ suc l.reloads)
        × ((reload redis ctx_done (update_one_event redis a l).1).sha ≡ sha)
  unfolding update_one_event after_fast
  reload-heals a ctx_done l e reply sha plain client known missed unknown ran loaded =
      let missed_once = record l { server = (redis.eval_sha l.sha a l.server).1 } in
      let cleared = record l { sha = ""; server = (redis.eval_sha l.sha a l.server).1 } in
      let healed =
        ap (after_fast redis a) (fast_path-missed a l e known missed)
        ∙ ap (λ b. slow_path redis a (if b then cleared else missed_once)) unknown
        ∙ slow_path-plain a cleared reply plain ran in
      (
        ap (λ o. o.0) healed,
        ap (λ o. o.1.reloads) healed,
        ap (λ o. (reload redis ctx_done o.1).sha) healed
            ∙ reload-loads ctx_done _ sha refl client loaded,
      )
