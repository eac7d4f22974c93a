-- ===== src/Redis/Lua/Concurrent/Alone.antt =====
-- redis/lua.go: a call of UpdateOneEvent that no other call overlaps.
use lunaship.Base.{Option, none, some, [], refl, Bool-cases, inl, inr}
use lunaship.Redis.Lua.{
  Client, LuaExecutor, LuaError, client_is_nil, sha_is_empty, caused, fast_path, after_fast,
  update_one_event,
}
use lunaship.Redis.Lua.Concurrent.{alone, admit, begin, clear, run_text, Reach, here, next}

module _ {C E R A : Type 0} (redis : Client C E R A) where
  -- The steps of one call that no other overlaps, from the answer of its fast path on.
  after_fast-Reach :
      (a : A) (l : LuaExecutor C E R) (o : Option (LuaError E) × LuaExecutor C E R)
      → Reach redis (alone redis l) (admit redis a o (alone redis l))
      → Reach redis (alone redis l) (alone redis (after_fast redis a o).1)
  unfolding after_fast
  after_fast-Reach a l (none, l') begun = begun
  after_fast-Reach a l (some client_is_nil, l') begun = next begun (run_text a [] [] refl)
  after_fast-Reach a l (some sha_is_empty, l') begun = next begun (run_text a [] [] refl)
  after_fast-Reach a l (some (caused e), l') begun = elim (Bool-cases (redis.is_noscript e)) [
    | inl unknown ↦
        rw (unknown)
          (next (next (rw (unknown) at begun) (clear a [] [] refl)) (run_text a [] [] refl))
    | inr other ↦ rw (other) (next (rw (other) at begun) (run_text a [] [] refl))
  ]

  -- A call of UpdateOneEvent that no other call overlaps is a sequence of these steps: what it leaves is
  -- reached.
  pub update-Reach :
      (a : A) (l : LuaExecutor C E R)
      → Reach redis (alone redis l) (alone redis (update_one_event redis a l).1)
  unfolding update_one_event
  update-Reach a l = after_fast-Reach a l (fast_path redis a l) (next here (begin a))
