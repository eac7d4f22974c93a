-- ===== src/Redis/Once.antt =====
-- redis/redis.go: what the calls of InitRedis answer.
use lunaship.Base.{
  ℕ, ◌+◌, ◌≤◌, String, true, false, Option, none, some, ◌≡◌, refl, ◌⊎◌, arith, ap, ◌∙◌, sym, subst,
  Bool-cases,
}
use lunaship.Utils.Laws.{Runs, last, failed, retry-Runs}
use lunaship.Redis.Client.{
  RedisOptions, RedisGlobals, ping_redis, client_of, connect_redis, init_redis,
}

module _ {S E : Type 0} (env : String → String) (ping : S → Option E × S) where
  -- A run of pings keeps the client and the sync.Once.
  Runs-kept :
      {g end : RedisGlobals S} {n : ℕ} {answer : Option E}
      → Runs (ping_redis env ping) g n answer end
      → (end.done ≡ g.done) × (end.client ≡ g.client)
  unfolding ping_redis
  Runs-kept (last g) = (refl, refl)
  Runs-kept (failed g e bad rest) = Runs-kept rest

  first_call :
      (conf : Option RedisOptions) (max_retry : ℕ) (g : RedisGlobals S)
      → g.done ≡ false
      → init_redis env ping conf max_retry g
        ≡ connect_redis env ping conf max_retry (record g { done = true })
  unfolding init_redis
  first_call conf max_retry g new = rw (new, init_redis) refl

  later_call :
      (conf : Option RedisOptions) (max_retry : ℕ) (g : RedisGlobals S)
      → g.done ≡ true
      → init_redis env ping conf max_retry g ≡ (none, g, 0)
  unfolding init_redis
  later_call conf max_retry g over = ground (arith, Bool-cases g.done)

  -- The first InitRedis sets the global client, pings at most once more than the given number of
  -- retries, and answers an error only after all of the pings; whatever it has answered, each later
  -- InitRedis answers no error, pings nothing and changes nothing, so that the client of a server that
  -- was never reached stays.
  pub init_redis-once :
      (conf later : Option RedisOptions) (max_retry more : ℕ) (g : RedisGlobals S)
      → g.done ≡ false
      → ((init_redis env ping conf max_retry g).1.client ≡ some (client_of env ping conf))
        × ((init_redis env ping conf max_retry g).2 ≤ max_retry + 1)
        × (((init_redis env ping conf max_retry g).0 ≡ none)
            ⊎ ((init_redis env ping conf max_retry g).2 ≡ max_retry + 1))
        × (init_redis env ping later more (init_redis env ping conf max_retry g).1
            ≡ (none, (init_redis env ping conf max_retry g).1, 0))
  unfolding connect_redis
  init_redis-once conf later max_retry more g new =
      let first : RedisGlobals S = record g {
        done = true;
        client = some (client_of env ping conf);
      } in
      let (runs, most, why) = retry-Runs (ping_redis env ping) max_retry first in
      let (done, client) = Runs-kept runs in
      let same = first_call conf max_retry g new in
      (
        ap (λ r. r.1.client) same ∙ client,
        subst (λ r. r.2 ≤ max_retry + 1) (sym same) most,
        subst (λ r. (r.0 ≡ none) ⊎ (r.2 ≡ max_retry + 1)) (sym same) why,
        later_call later more _ (ap (λ r. r.1.done) same ∙ done),
      )

  -- A run that ends without an error ends with a ping that is answered.
  Runs-answered :
      {g end : RedisGlobals S} {n : ℕ} {answer : Option E}
      → Runs (ping_redis env ping) g n answer end
      → answer ≡ none
      → (s : S) × (ping s ≡ (none, end.server))
  unfolding ping_redis
  Runs-answered (last g) fine = (g.server, ap (λ e. (e, (ping g.server).1)) fine)
  Runs-answered (failed g e bad rest) fine = Runs-answered rest fine

  -- A first InitRedis that answers no error has reached the server: the last ping is answered.
  pub init_redis-reached :
      (conf : Option RedisOptions) (max_retry : ℕ) (g : RedisGlobals S)
      → g.done ≡ false
      → (init_redis env ping conf max_retry g).0 ≡ none
      → (s : S) × (ping s ≡ (none, (init_redis env ping conf max_retry g).1.server))
  unfolding connect_redis
  init_redis-reached conf max_retry g new fine =
      let first : RedisGlobals S = record g {
        done = true;
        client = some (client_of env ping conf);
      } in
      let same = first_call conf max_retry g new in
      let (s, answered) =
        Runs-answered (retry-Runs (ping_redis env ping) max_retry first).0
          (ap (λ r. r.0) (sym same) ∙ fine) in
      (s, answered ∙ ap (λ r. (none, r.1.server)) (sym same))
