-- ===== src/Utils.antt =====
-- The package utils: chains, retries and the other helpers on functions and lists. An action is a
-- function on the state `S` of the process, which it changes; sleeping is left out.
pub mod Laws
pub mod Samples
use lunaship.Base.{
  ℕ, zero, suc, ◌+◌, ◌-◌, ◌%◌, String, Bool, true, false, not, Option, none, some, List, [], ◌∷◌,
  ◌++◌, if◌then◌else◌, ltb,
}
use lunaship.Base.Int.{ℤ, pos, negsuc}

-- func() error
abbrev pub Action : Type 0 → Type 0 → Type 0
Action S E = S → Option E × S

module _ {S E : Type 0} where
  -- The loop of Chain: the index of the first function that fails, and its error.
  unfoldable pub chain_from : ℕ → List (Action S E) → S → Option (ℕ × E) × S
  chain_from index [] s = (none, s)
  chain_from index (fn ∷ rest) s =
      let (failure, s') = fn s in
      elim failure [ some e ↦ (some (index, e), s') | none ↦ chain_from (suc index) rest s' ]

  unfoldable pub chain : List (Action S E) → S → Option (ℕ × E) × S
  chain fns s = chain_from 0 fns s

  -- ChainWithoutWrapper
  unfoldable pub chain_without_wrapper : List (Action S E) → S → Option E × S
  chain_without_wrapper [] s = (none, s)
  chain_without_wrapper (fn ∷ rest) s =
      let (failure, s') = fn s in
      elim failure [ some e ↦ (some e, s') | none ↦ chain_without_wrapper rest s' ]

  -- The loop of Retry, with the answer so far and `left`, which is maxRetry - cnt. The last component
  -- counts the calls of the action.
  unfoldable pub retry_loop : ℕ → Action S E → Option E → S → ℕ → Option E × S × ℕ
  retry_loop zero action answer s calls = (answer, s, calls)
  retry_loop (suc left) action none s calls = (none, s, calls)
  retry_loop (suc left) action (some e) s calls =
      let again = action s in retry_loop left action again.0 again.1 (suc calls)

  -- Retry; the error is the last one, behind a text that errors.WithMessagef adds to an error only.
  unfoldable pub retry : ℕ → Action S E → S → Option E × S × ℕ
  retry max_retry action s = let first = action s in retry_loop max_retry action first.0 first.1 1

-- All: the index of the first function that answers false, or -1.
unfoldable pub all_from : {S : Type 0} → ℕ → List (S → Bool × S) → S → (ℤ × Bool) × S
all_from index [] s = ((negsuc 0, true), s)
all_from index (b ∷ bs) s =
    let (answer, s') = b s in
    if answer then all_from (suc index) bs s' else ((pos index, false), s')

-- A value computed, or a panic with what was passed to it.
pub data Outcome (X : Type 0) : Type 0 where
  returned : Outcome X
  panicked : X → Outcome X

abbrev on_panic : {X S : Type 0} → Option (X → S → S) → X → S → S
on_panic none r s = s
on_panic (some f) r s = f r s

-- GoWithAction: a panic ends in the action, if there is one, and goes no further.
unfoldable pub go_with_action : {X S : Type 0} → (S → Outcome X × S) → Option (X → S → S) → S → S
go_with_action fn panic_action s =
    let (outcome, s') = fn s in
    elim outcome [ returned ↦ s' | panicked r ↦ on_panic panic_action r s' ]

-- Go
unfoldable pub go : {X S : Type 0} → (S → Outcome X × S) → S → S
unfolding go_with_action
go fn s = go_with_action fn none s

-- The conversion of an int64 to uint64.
abbrev uint64_of : ℤ → ℕ
uint64_of (pos n) = n % 18446744073709551616
uint64_of (negsuc n) = (18446744073709551616 - 1 - n % 18446744073709551616) % 18446744073709551616

-- NowInSec and NowInMs, by what the clock answers: Unix, or UnixMilli.
unfoldable pub now_in_sec : (unix : ℤ) → ℕ
now_in_sec unix = uint64_of unix

unfoldable pub now_in_ms : (unix_milli : ℤ) → ℕ
now_in_ms unix_milli = uint64_of unix_milli

-- PanicIf
unfoldable pub panic_if : {E : Type 0} → Option E → Outcome E
panic_if none = returned
panic_if (some e) = panicked e

-- Max on a type with `>`.
unfoldable pub max_by : {A : Type 0} → (A → A → Bool) → A → A → A
max_by greater a b = if greater a b then a else b

module _ {T K : Type 0} (same : K → K → Bool) (key_of : T → K) where
  -- m[k] of the map that the entries fill in order: the last one with the key counts.
  unfoldable pub has_key : List T → K → Bool
  has_key [] k = false
  has_key (e ∷ es) k = if same (key_of e) k then true else has_key es k

  -- The values of the map: of the entries with one key, the last.
  unfoldable pub map_values : List T → List T
  map_values [] = []
  map_values (e ∷ es) = let rest = map_values es in if has_key es (key_of e) then rest else e ∷ rest

  abbrev missing_in : List T → List T → List T
  missing_in other [] = []
  missing_in other (e ∷ es) =
      let rest = missing_in other es in if has_key other (key_of e) then rest else e ∷ rest

  -- Diff, its two lists in the order in which the ranges give them.
  unfoldable pub diff : List T → List T → List T × List T
  diff list1 list2 = (missing_in list1 (map_values list2), missing_in list2 (map_values list1))
