-- ===== src/Utils/Laws.antt =====
-- utils/iter.go: how often Retry calls its action, and when it gives up; and what Chain has run.
use lunaship.Base.{
  ℕ, zero, suc, ◌+◌, ◌≤◌, Option, none, some, ◌≡◌, refl, ◌⊎◌, inl, inr, arith, subst,
}
use lunaship.Utils.{Action, retry_loop, retry}

module _ {S E : Type 0} (action : Action S E) where
  -- Runs of the action one after the other, from the state before the first: all but the last have
  -- failed, and the last has given the answer and the state.
  pub data Runs : S → ℕ → Option E → S → Type 0 where
    last : (s : S) → Runs s 1 (action s).0 (action s).1
    failed :
        (s : S) {n : ℕ} {answer : Option E} {t : S} (e : E)
        → (action s).0 ≡ some e
        → Runs (action s).1 n answer t
        → Runs s (suc n) answer t

  -- What the loop has done, with `calls` runs before the one from `s`.
  abbrev LoopRuns : S → ℕ → ℕ → Option E × S × ℕ → Type 0
  LoopRuns s left calls end =
      (n : ℕ) × (end.2 + 1 ≡ calls + n)
      × (n ≤ left + 1)
      × Runs s n end.0 end.1
      × ((end.0 ≡ none) ⊎ (n ≡ left + 1))

  retry_loop-Runs :
      (left : ℕ) (s : S) (calls : ℕ) (answer : Option E)
      → (action s).0 ≡ answer
      → LoopRuns s left calls (retry_loop left action answer (action s).1 calls)
  unfolding retry_loop
  retry_loop-Runs zero s calls answer same = (
    1,
    omega arith,
    omega arith,
    subst (λ a. Runs s 1 a (action s).1) same (last s),
    inr (omega arith),
  )
  retry_loop-Runs (suc left) s calls none same =
      (1, omega arith, omega arith, subst (λ a. Runs s 1 a (action s).1) same (last s), inl refl)
  retry_loop-Runs (suc left) s calls (some e) same =
      let (n, count, most, runs, why) =
        retry_loop-Runs left (action s).1 (suc calls) (action (action s).1).0 refl in
      (
        suc n,
        omega arith,
        omega arith,
        failed s e same runs,
        elim why [ inl fine ↦ inl fine | inr all ↦ inr (omega arith) ],
      )

  -- Retry runs its action until it succeeds, and at most once more than the given number of retries:
  -- every run but the last has failed, the last gives the answer, and Retry gives up with an error
  -- only after all of the runs.
  pub retry-Runs :
      (max_retry : ℕ) (s : S)
      → Runs s
          (retry max_retry action s).2
          (retry max_retry action s).0
          (retry max_retry action s).1
        × ((retry max_retry action s).2 ≤ max_retry + 1)
        × (((retry max_retry action s).0 ≡ none) ⊎ ((retry max_retry action s).2 ≡ max_retry + 1))
  unfolding retry
  retry-Runs max_retry s =
      let (n, count, most, runs, why) = retry_loop-Runs max_retry s 1 (action s).0 refl in
      let end = retry_loop max_retry action (action s).0 (action s).1 1 in
      let same : n ≡ end.2 = omega arith in
      (
        subst (λ k. Runs s k end.0 end.1) same runs,
        omega arith,
        elim why [ inl fine ↦ inl fine | inr all ↦ inr (omega arith) ],
      )
