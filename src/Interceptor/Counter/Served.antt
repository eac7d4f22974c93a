-- ===== src/Interceptor/Counter/Served.antt =====
-- interceptor/counter.go: the wrappers NewLocalRpcCounter and NewRedisRpcCounter, and the loop of
-- PrintRpcCounter. A process has the counters, or the goroutines that have been started, beside the state of
-- the service.
use lunaship.Base.{
  ℕ, ◌+◌, ◌%◌, String, Option, none, some, List, [], ◌∷◌, ◌++◌, ◌≡◌, refl, ◌==◌, arith, Bool-cases,
  Option-cases, inl, inr, Bool, true, false, eq_iff, ap, ◌∙◌, sym,
}
use lunaship.ModuleApi.Graph.{update}
use lunaship.Telemetry.{LineLevel, error_line}
use lunaship.Interceptor.{UnaryFunc}
use lunaship.Interceptor.Counter.{Entry, printed_counters}
use lunaship.Interceptor.Counter.Concurrent.{
  Counters, modulus, shown, load_found, load_missing, store, add, Reach, here, next,
}

-- RPC_COUNTER by the values of its counters.
abbrev pub Values : Type 0
Values = String → Option ℕ

-- The function increment of NewLocalRpcCounter, when no other call runs.
unfoldable pub increment : String → Values → Values
increment key values = elim (values key) [
  | some n ↦ update values key (some ((n + 1) % modulus))
  | none ↦ update values key (some 1)
]

-- A call of HIncrBy in a goroutine: the hash, the field and the amount.
pub record CountJob : Type 0 where
  pub key : String
  pub field : String
  pub amount : ℕ

-- What the goroutine logs, by the answer of HIncrBy.
unfoldable pub count_lines : {E : Type 0} → Option E → List (LineLevel × String)
count_lines none = []
count_lines (some e) = (error_line, "rpc_counter") ∷ []

module _ {S E R : Type 0} where
  unfoldable pub locally_counted : UnaryFunc (Values × S) E R → UnaryFunc (Values × S) E R
  locally_counted next_call ctx req p =
      next_call ctx req (record p { app = (increment req.procedure p.app.0, p.app.1) })

  unfoldable pub redis_counted :
      UnaryFunc (List CountJob × S) E R → UnaryFunc (List CountJob × S) E R
  redis_counted next_call ctx req p =
      let job : CountJob = record { key = "rpc_counter"; field = req.procedure; amount = 1 } in
      next_call ctx req (record p { app = (p.app.0 ++ job ∷ [], p.app.1) })

-- What a round of PrintRpcCounter finds: its context is done, or, after the pause, these entries.
pub data Round : Type 0 where
  context_done : Round
  found : List Entry → Round

-- PrintRpcCounter: the lines of the rounds, with the counters that they show.
unfoldable pub print_rpc_counter : ℕ → List Round → List (String × List Entry)
print_rpc_counter topk [] = []
print_rpc_counter topk (context_done ∷ rounds) = ("rpc_counter done", []) ∷ []
print_rpc_counter topk (found entries ∷ rounds) =
    ("rpc_counter", printed_counters topk entries) ∷ print_rpc_counter topk rounds

-- Counters between calls.
abbrev pub at_rest : Values → (finished : String → ℕ) → Counters
at_rest values finished = record {
  value = values;
  adding = λ key. 0;
  creating = λ key. 0;
  finished = finished;
}

-- The counters of the calls of a list of procedures, one after another.
unfoldable pub increment_all : List String → Values → Values
increment_all [] values = values
increment_all (key ∷ keys) values = increment_all keys (increment key values)

-- How often a procedure is called.
abbrev pub one_if : Bool → ℕ
one_if true = 1
one_if false = 0

unfoldable pub calls_of : String → List String → ℕ
calls_of key [] = 0
calls_of key (k ∷ ks) = one_if (k == key) + calls_of key ks

increment-shown :
    (k key : String) (values : Values)
    → shown (increment k values key) % modulus ≡ (shown (values key) + one_if (k == key)) % modulus
unfolding increment
increment-shown k key values = elim (Bool-cases (k == key)) [
  | inl same ↦ elim (Option-cases (values k)) [
    | inl missing ↦
        let there : shown (values key) ≡ 0 =
          ap shown (ap values (sym ((eq_iff k key).0 same)) ∙ missing) in
        rw (missing, same, increment) (omega (arith, there))
    | inr (n, stored) ↦
        let there : shown (values key) ≡ n =
          ap shown (ap values (sym ((eq_iff k key).0 same)) ∙ stored) in
        rw (stored, same, increment) (omega (arith, there))
  ]
  | inr differs ↦ elim (Option-cases (values k)) [
    | inl missing ↦ rw (missing, differs, increment) (omega arith)
    | inr (n, stored) ↦ rw (stored, differs, increment) (omega arith)
  ]
]

-- After calls that come one after another, the counter of each procedure has gone up by the number of its
-- calls, modulo the width of the atomic number, wherever it stood.
pub increment_all-shown :
    (keys : List String) (values : Values) (key : String)
    → shown (increment_all keys values key) % modulus
      ≡ (shown (values key) + calls_of key keys) % modulus
unfolding increment_all calls_of
increment_all-shown [] values key = omega arith
increment_all-shown (k ∷ ks) values key =
    omega (arith, increment-shown k key values, increment_all-shown ks (increment k values) key)

update-same : (f : String → ℕ) (key : String) (n : ℕ) → update f key n key ≡ n
update-same f key n = rw ((eq_iff key key).1 refl) refl

-- A call that no other overlaps is a sequence of the steps of the concurrent calls.
pub increment-Reach :
    (key : String) (values : Values) (finished : String → ℕ)
    → (c : Counters) × Reach (at_rest values finished) c × (c.value ≡ increment key values)
unfolding increment
increment-Reach key values finished = elim (Option-cases (values key)) [
  | inl missing ↦ (
    _,
    next (next here (load_missing key missing)) (store key 0 (update-same (λ k. 0) key 1) missing),
    rw (missing, increment) refl,
  )
  | inr (n, stored) ↦ (
    _,
    next (next here (load_found key n stored)) (add key 0 n (update-same (λ k. 0) key 1) stored),
    rw (stored, increment) refl,
  )
]
