-- ===== src/Interceptor/Counter/Concurrent.antt =====
-- interceptor/counter.go: NewLocalRpcCounter's increment, run by any number of calls at once. The
-- operations of sync.Map and of the atomic numbers are the steps.
use lunaship.Base.{
  ℕ, suc, ◌+◌, ◌%◌, String, Option, none, some, ◌≡◌, ◌==◌, arith, Bool-cases, ap, sym, ◌∙◌, inl,
  inr,
}
use lunaship.ModuleApi.Graph.{update}

-- The counters, and for each key the calls that have loaded its counter and will add to it, the calls
-- that have found none and made their own, and the calls that are done.
pub record Counters : Type 0 where
  pub value : String → Option ℕ
  pub adding : String → ℕ
  pub creating : String → ℕ
  pub finished : String → ℕ

abbrev pub no_calls : Counters
no_calls = record {
  value = λ key. none;
  adding = λ key. 0;
  creating = λ key. 0;
  finished = λ key. 0;
}

-- The numbers of an atomic.Uint64.
abbrev pub modulus : ℕ
modulus = 18446744073709551616

pub data Step (c : Counters) : Counters → Type 0 where
  -- RPC_COUNTER.Load
  load_found :
      (key : String) (n : ℕ)
      → c.value key ≡ some n
      → Step c (record c { adding = update c.adding key (c.adding key + 1) })
  load_missing :
      (key : String)
      → c.value key ≡ none
      → Step c (record c { creating = update c.creating key (c.creating key + 1) })
  -- RPC_COUNTER.LoadOrStore of a counter that stands at 1: stored, or another one is loaded.
  store :
      (key : String) (m : ℕ)
      → c.creating key ≡ suc m
      → c.value key ≡ none
      → Step c (record c {
        value = update c.value key (some 1);
        creating = update c.creating key m;
        finished = update c.finished key (c.finished key + 1);
      })
  load_stored :
      (key : String) (m n : ℕ)
      → c.creating key ≡ suc m
      → c.value key ≡ some n
      → Step c (record c {
        creating = update c.creating key m;
        adding = update c.adding key (c.adding key + 1);
      })
  -- Add(1) on the loaded counter.
  add :
      (key : String) (m n : ℕ)
      → c.adding key ≡ suc m
      → c.value key ≡ some n
      → Step c (record c {
        value = update c.value key (some ((n + 1) % modulus));
        adding = update c.adding key m;
        finished = update c.finished key (c.finished key + 1);
      })

pub data Reach (c : Counters) : Counters → Type 0 where
  here : Reach c c
  next : {d e : Counters} → Reach c d → Step d e → Reach c e

-- What a reader of the counters sees; a missing counter counts as 0.
abbrev pub shown : Option ℕ → ℕ
shown none = 0
shown (some n) = n

-- The abstract view: a counter shows how many calls of its key are done, modulo the width.
abbrev pub Counts : Counters → Type 0
Counts c = (key : String) → shown (c.value key) ≡ c.finished key % modulus

Step-Counts : {c d : Counters} → Step c d → Counts c → Counts d
Step-Counts (load_found key n e) h other = h other
Step-Counts (load_missing key e) h other = h other
Step-Counts {c} (store key m e v) h other = elim (Bool-cases (key == other)) [
  | inl same ↦ let seen = ap shown (sym v) ∙ h key in rw same (omega (arith, seen))
  | inr differs ↦ rw differs (h other)
]
Step-Counts (load_stored key m n e v) h other = h other
Step-Counts {c} (add key m n e v) h other = elim (Bool-cases (key == other)) [
  | inl same ↦ let seen = ap shown (sym v) ∙ h key in rw same (omega (arith, seen))
  | inr differs ↦ rw differs (h other)
]

-- However the calls interleave, no increment is lost: from a state in which the counters show the
-- finished calls, every state that is reached has each counter at the number of finished calls of its
-- key, modulo 2 ^ 64.
pub Reach-Counts : {c d : Counters} → Counts c → Reach c d → Counts d
Reach-Counts h here = h
Reach-Counts h (next r s) = Step-Counts s (Reach-Counts h r)
