-- ===== src/Redis/Lua/Concurrent.antt =====
-- redis/lua.go: UpdateOneEvent when calls overlap. The fast path is one step, since the read lock keeps the
-- digest; the digest is cleared in a second step, under the lock; the script runs by its text in a third,
-- without a lock. Other calls and reloads may come between them.
pub mod Alone
use lunaship.Base.{
  Bool, Result, err, ℕ, suc, String, true, false, Option, none, some, List, [], ◌∷◌, ◌++◌, ◌≡◌,
  refl, ◌≢◌, ◌⊎◌, inl, inr, arith, if◌then◌else◌, ok, Bool-cases, ◌∙◌,
}
use lunaship.Base.Text.{is_empty}
use lunaship.Redis.Lua.Keeps.{
  IsRefused, IsUnloaded, IsBlank, IsRefused-cases, IsUnloaded-cases, IsBlank-cases, IsSame,
  fast_path-keeps, slow_path-reloads, reload-loads, prepare-keeps, prepare-loads,
}
use lunaship.Redis.Lua.{
  Client, LuaExecutor, LuaError, client_is_nil, sha_is_empty, caused, prepare_lua_script, fast_path,
  slow_path, after_fast, update_one_event, reload,
}

-- The executor, and the arguments of the calls that are about to clear the digest and of those that are
-- about to run the script by its text.
pub record Overlap (C E R A : Type 0) : Type 0 where
  pub executor : LuaExecutor C E R
  pub clearing : List A
  pub failing : List A

module _ {C E R A : Type 0} (redis : Client C E R A) where
  -- What a call does next, by the answer of its fast path.
  abbrev pub after_miss : A → LuaError E → Overlap C E R A → Overlap C E R A
  after_miss a client_is_nil w = record w { failing = a ∷ w.failing }
  after_miss a sha_is_empty w = record w { failing = a ∷ w.failing }
  after_miss a (caused e) w =
      if redis.is_noscript e
      then record w { clearing = a ∷ w.clearing }
      else record w { failing = a ∷ w.failing }

  abbrev pub admit : A → Option (LuaError E) × LuaExecutor C E R → Overlap C E R A → Overlap C E R A
  admit a (none, l) w = record w { executor = l }
  admit a (some e, l) w = after_miss a e (record w { executor = l })

  pub data Step (w : Overlap C E R A) : Overlap C E R A → Type 0 where
    begin : (a : A) → Step w (admit a (fast_path redis a w.executor) w)
    clear :
        (a : A) (before after : List A)
        → w.clearing ≡ before ++ a ∷ after
        → Step w (record w {
          executor = record w.executor { sha = "" };
          clearing = before ++ after;
          failing = a ∷ w.failing;
        })
    run_text :
        (a : A) (before after : List A)
        → w.failing ≡ before ++ a ∷ after
        → Step w
            (record w { executor = (slow_path redis a w.executor).1; failing = before ++ after })
    run_reload :
        (ctx_done : Bool) (n : ℕ)
        → w.executor.reloads ≡ suc n
        → Step w (record w { executor = record (reload redis ctx_done w.executor) { reloads = n } })
    -- PrepareLuaScript, which takes no lock.
    prepare :
        (ctx_done : Bool)
        → Step w (record w { executor = (prepare_lua_script redis ctx_done w.executor).1 })

  pub data Reach (w : Overlap C E R A) : Overlap C E R A → Type 0 where
    here : Reach w w
    next : {u v : Overlap C E R A} → Reach w u → Step u v → Reach w v

  abbrev pub alone : LuaExecutor C E R → Overlap C E R A
  alone l = record { executor = l; clearing = []; failing = [] }

  -- The executor is as it was made, and heals: no response function is in the way, and if the digest is
  -- lost, a reload is under way or a call is about to start one.
  pub record IsHealing (w : Overlap C E R A) : Type 0 where
    pub client : w.executor.has_client ≡ true
    pub plain : w.executor.resp_fn ≡ none
    pub heals : is_empty w.executor.sha ≡ true → (w.executor.reloads ≢ 0) ⊎ (w.failing ≢ [])

  -- What can go wrong behind a lost digest: the server refuses the script by its text, a reload gets no
  -- digest, for instance because the context that it was given is done, or PrepareLuaScript gets an
  -- empty one.
  abbrev pub Fails : {w u : Overlap C E R A} → Step w u → Type 0
  Fails (begin a) = ⊥
  Fails (clear a before after e) = ⊥
  Fails {w} (run_text a before after e) =
      IsRefused (redis.eval w.executor.script a w.executor.server).0
  Fails {w} (run_reload ctx_done n e) =
      IsUnloaded (redis.script_load ctx_done w.executor.script w.executor.server).0
  Fails {w} (prepare ctx_done) =
      IsBlank (redis.script_load ctx_done w.executor.script w.executor.server).0

  -- Some step of the run does.
  abbrev pub HasFailed : {w u : Overlap C E R A} → Reach w u → Type 0
  HasFailed here = ⊥
  HasFailed (next r s) = HasFailed r ⊎ Fails s

  -- A call that begins keeps the reloads and the digest, and joins the failing calls if there is none.
  admit-IsHealing :
      (a : A) (o : Option (LuaError E) × LuaExecutor C E R) (w : Overlap C E R A)
      → IsSame w.executor o.1
      → (o.1.sha ≡ w.executor.sha) × (o.1.reloads ≡ w.executor.reloads)
      → IsHealing w
      → IsHealing (admit a o w)
  admit-IsHealing a (none, l) w same kept h = record {
    client = same.client ∙ h.client;
    plain = same.plain ∙ h.plain;
    heals = ground (arith, h.heals);
  }
  admit-IsHealing a (some client_is_nil, l) w same kept h = record {
    client = same.client ∙ h.client;
    plain = same.plain ∙ h.plain;
    heals = λ lost. inr (λ e. cc);
  }
  admit-IsHealing a (some sha_is_empty, l) w same kept h = record {
    client = same.client ∙ h.client;
    plain = same.plain ∙ h.plain;
    heals = λ lost. inr (λ e. cc);
  }
  admit-IsHealing a (some (caused e), l) w same kept h = elim (Bool-cases (redis.is_noscript e)) [
    | inl unknown ↦ rw (unknown) (record {
      client = same.client ∙ h.client;
      plain = same.plain ∙ h.plain;
      heals = ground (arith, h.heals);
    })
    | inr other ↦ rw (other) (record {
      client = same.client ∙ h.client;
      plain = same.plain ∙ h.plain;
      heals = λ lost. inr (λ e. cc);
    })
  ]

  prepare-IsHealing :
      (ctx_done : Bool) (w : Overlap C E R A)
      → IsHealing w
      → IsBlank (redis.script_load ctx_done w.executor.script w.executor.server).0
        ⊎ IsHealing (record w { executor = (prepare_lua_script redis ctx_done w.executor).1 })
  prepare-IsHealing ctx_done w h =
      elim (IsBlank-cases (redis.script_load ctx_done w.executor.script w.executor.server).0) [
        | inl blank ↦ inl blank
        | inr (inl (e, bad)) ↦
            let (same, digest, reloads) = prepare-keeps redis ctx_done w.executor e h.client bad in
            inr (record {
              client = same.client ∙ h.client;
              plain = same.plain ∙ h.plain;
              heals = ground (arith, h.heals);
            })
        | inr (inr (sha, good, known)) ↦
            let (same, digest) = prepare-loads redis ctx_done w.executor sha h.client good in
            inr (record {
              client = same.client ∙ h.client;
              plain = same.plain ∙ h.plain;
              heals = λ lost. absurd (ground arith);
            })
      ]

  Step-IsHealing : {w u : Overlap C E R A} → IsHealing w → (s : Step w u) → Fails s ⊎ IsHealing u
  Step-IsHealing {w} h (begin a) =
      let (same, digest, reloads) = fast_path-keeps redis a w.executor in
      inr (admit-IsHealing a (fast_path redis a w.executor) w same (digest, reloads) h)
  Step-IsHealing h (clear a before after e) =
      inr (record { client = h.client; plain = h.plain; heals = λ lost. inr (λ e. cc) })
  Step-IsHealing {w} h (run_text a before after e) =
      elim (IsRefused-cases (redis.eval w.executor.script a w.executor.server).0) [
        | inl refused ↦ inl refused
        | inr (reply, good) ↦
            let (same, more) = slow_path-reloads redis a w.executor reply h.plain good in
            inr (record {
              client = same.client ∙ h.client;
              plain = same.plain ∙ h.plain;
              heals = λ lost. inl (λ nil. omega arith);
            })
      ]
  Step-IsHealing {w} h (run_reload ctx_done n e) =
      elim (IsUnloaded-cases (redis.script_load ctx_done w.executor.script w.executor.server).0) [
        | inl unloaded ↦ inl unloaded
        | inr (sha, good, known) ↦
            let (same, back) = reload-loads redis ctx_done w.executor sha h.client good known in
            inr (record {
              client = same.client ∙ h.client;
              plain = same.plain ∙ h.plain;
              heals = λ lost. absurd (ground arith);
            })
      ]
  Step-IsHealing {w} h (prepare ctx_done) = prepare-IsHealing ctx_done w h

  Reach-IsHealing :
      {w u : Overlap C E R A} → IsHealing w → (r : Reach w u) → HasFailed r ⊎ IsHealing u
  Reach-IsHealing h here = inr h
  Reach-IsHealing h (next r s) = elim (Reach-IsHealing h r) [
    | inl failed ↦ inl (inl failed)
    | inr healing ↦ elim (Step-IsHealing healing s) [
      | inl fails ↦ inl (inr fails)
      | inr heals ↦ inr heals
    ]
  ]

  rest-known :
      (w : Overlap C E R A)
      → IsHealing w
      → w.failing ≡ []
      → w.executor.reloads ≡ 0
      → is_empty w.executor.sha ≡ false
  rest-known w h calm quiet = elim (Bool-cases (is_empty w.executor.sha)) [
    | inl lost ↦ absurd (elim (h.heals lost) [ inl reloads ↦ reloads quiet | inr call ↦ call calm ])
    | inr fine ↦ fine
  ]

  -- However the calls of an executor with a client, without a response function and with a digest overlap
  -- with each other, with reloads and with calls of PrepareLuaScript, and whatever the server answers to
  -- the digests: whenever no call is about to run the script by its text and no reload is under way, the
  -- executor has a digest, unless in the run the server has refused a script by its text, a reload has got
  -- no digest, or PrepareLuaScript an empty one.
  pub overlapping-heals :
      (l : LuaExecutor C E R) (w : Overlap C E R A)
      → l.has_client ≡ true
      → l.resp_fn ≡ none
      → is_empty l.sha ≡ false
      → (r : Reach (alone l) w) → w.failing ≡ []
      → w.executor.reloads ≡ 0
      → HasFailed r ⊎ (is_empty w.executor.sha ≡ false)
  overlapping-heals l w client plain known r calm quiet =
      let start : IsHealing (alone l) = record {
        client = client;
        plain = plain;
        heals = λ lost. absurd (ground arith);
      } in
      elim (Reach-IsHealing start r) [
        | inl failed ↦ inl failed
        | inr h ↦ inr (rest-known w h calm quiet)
      ]
