-- ===== src/Redis/Samples.antt =====
-- The theorems on the script executor applied to a server that counts the runs of its one script.
use lunaship.Base.{
  ◌⊎◌, ◌≤◌, ◌+◌, Option, some, none, [], ◌∷◌, ℕ, suc, String, Bool, true, false, ◌≡◌, refl, ok, err,
  if◌then◌else◌, ◌==◌,
}
use lunaship.Redis.Client.{RedisGlobals, client_of, init_redis}
use lunaship.Redis.Once.{init_redis-once}
use lunaship.Base.Text.{is_empty}
use lunaship.Redis.Lua.{
  Client, LuaExecutor, fast_path, slow_path, prepare_lua_script, update_one_event, reload,
}
use lunaship.Redis.Lua.Concurrent
use lunaship.Redis.Lua.Concurrent.{Overlap, overlapping-heals}
use lunaship.Redis.Lua.Laws.{
  Reach, HasLoaded, here, next, update, IsStuck, Reach-IsStuck, update-runs_twice,
}

-- The server's state: how often the script ran, and whether it knows the digest "d".
abbrev Server : Type 0
Server = ℕ × Bool

abbrev counting : Client Server String ℕ ℕ
counting = record {
  eval_sha = λ sha a s. if s.1 then (ok a, (suc s.0, s.1)) else (err "NOSCRIPT", s);
  eval = λ script a s. (ok a, (suc s.0, s.1));
  script_load = λ ctx_done script s. (ok "d", (s.0, true));
  is_noscript = λ e. e == "NOSCRIPT";
}

abbrev executor : Option (ℕ → Option String) → String → Bool → LuaExecutor Server String ℕ
executor resp_fn sha knows = record {
  has_client = true;
  script = "return 1";
  sha = sha;
  resp_fn = resp_fn;
  server = (0, knows);
  reloads = 0;
}

abbrev refuse : Option (ℕ → Option String)
refuse = some (λ reply. some "refused")

update-runs_twice_example :
    (update_one_event counting 5 (executor refuse "d" true)).1.server ≡ (2, true)
update-runs_twice_example =
    update-runs_twice counting 5 (executor refuse "d" true) 5 "refused" refl refl refl refl

abbrev one_call :
    Reach counting
      (executor refuse "" true)
      (update_one_event counting 5 (executor refuse "" true)).1
one_call = next here (update 5)

Reach-IsStuck_example :
    HasLoaded counting one_call
    ⊎ IsStuck counting (update_one_event counting 5 (executor refuse "" true)).1
Reach-IsStuck_example =
    Reach-IsStuck counting {l = executor refuse "" true} ((λ e. cc), refl, refl) one_call

-- A server that refuses every ping.
abbrev refused : ℕ → Option String × ℕ
refused n = (some "refused", suc n)

abbrev no_env : String → String
no_env name = ""

abbrev fresh : RedisGlobals ℕ
fresh = record { done = false; client = none; server = 0; warnings = 0 }

init_redis-once_example :
    ((init_redis no_env refused none 2 fresh).1.client ≡ some (client_of no_env refused none))
    × ((init_redis no_env refused none 2 fresh).2 ≤ 2 + 1)
    × (((init_redis no_env refused none 2 fresh).0 ≡ none)
        ⊎ ((init_redis no_env refused none 2 fresh).2 ≡ 2 + 1))
    × (init_redis no_env refused none 9 (init_redis no_env refused none 2 fresh).1
        ≡ (none, (init_redis no_env refused none 2 fresh).1, 0))
init_redis-once_example = init_redis-once no_env refused none none 2 9 fresh refl

-- Two calls find the digest unknown; the second clears it after the reload of the first has set it.
abbrev forgotten : LuaExecutor Server String ℕ
forgotten = executor none "d" false

abbrev both_done : Overlap Server String ℕ ℕ
both_done = record {
  executor = record forgotten { server = (2, true) };
  clearing = [];
  failing = [];
}

both_done-Reach : Concurrent.Reach counting (Concurrent.alone counting forgotten) both_done
unfolding fast_path slow_path reload prepare_lua_script
both_done-Reach =
    Concurrent.next
      (Concurrent.next
        (Concurrent.next
          (Concurrent.next
            (Concurrent.next
              (Concurrent.next
                (Concurrent.next (Concurrent.next Concurrent.here (Concurrent.begin 6))
                  (Concurrent.begin 5))
                (Concurrent.clear 5 [] (6 ∷ []) refl))
              (Concurrent.run_text 5 [] [] refl))
            (Concurrent.run_reload false 0 refl))
          (Concurrent.clear 6 [] [] refl))
        (Concurrent.run_text 6 [] [] refl))
      (Concurrent.run_reload false 0 refl)

overlapping-heals_example :
    Concurrent.HasFailed counting both_done-Reach ⊎ (is_empty both_done.executor.sha ≡ false)
overlapping-heals_example =
    overlapping-heals counting forgotten both_done refl refl refl both_done-Reach refl refl
