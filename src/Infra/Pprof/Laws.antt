-- ===== src/Infra/Pprof/Laws.antt =====
-- infra/pprof.go: Start and Stop when no two calls overlap.
use lunaship.Base.{
  subst, sym, In, In-append_left, In-append_right, inl, inr, ◌⊎◌, Bool-cases, Option-cases, ℕ, suc,
  ◌+◌, String, true, false, some, List, [], ◌∷◌, ◌++◌, ◌≡◌, refl, ◌≢◌, arith, length, length-append,
}
use lunaship.Infra.Pprof.{
  stopped, running, dumping, Call, count_failure, gc, PprofError, Platform, Manager, StartEnv,
  StopEnv, DumpEnv, new_dynamic_pprof, profile_path,
}
use lunaship.Infra.Pprof.Start.{compare_and_swap, start_body, start}
use lunaship.Infra.Pprof.Stop.{
  dump_named_profile, stop_server, stop_cpu, dump_all, stop_body, stop, StopOutcome, Dumped,
  and_then,
}

-- Between calls the manager is stopped with nothing open, or running with everything open.
pub record IsConsistent (m : Manager) : Type 0 where
  pub settled : m.state ≢ dumping
  pub idle : m.state ≡ stopped → (m.server ≡ false) × (m.cpu_file ≡ false) × (m.profiling ≡ false)
  pub busy : m.state ≡ running → (m.server ≡ true) × (m.cpu_file ≡ true) × (m.profiling ≡ true)

pub new-IsConsistent : (a d n : String) → IsConsistent (new_dynamic_pprof a d n)
unfolding new_dynamic_pprof
new-IsConsistent a d n = ground arith

-- How many dump failures the metric counts.
abbrev pub failures : List Call → ℕ
failures [] = 0
failures (count_failure profile ∷ calls) = suc (failures calls)
failures (_ ∷ calls) = failures calls

failures-append : (a b : List Call) → failures (a ++ b) ≡ failures a + failures b
failures-append [] b = omega arith
failures-append (count_failure profile ∷ a) b = omega (arith, failures-append a b)
failures-append (_ ∷ a) b = failures-append a b

-- A profile is dumped: its file is among those that are named, or its failure is counted.
abbrev pub IsAccounted : Platform → Manager → String → List String → List Call → Type 0
IsAccounted os m profile files calls =
    In (profile_path os m m.started_at profile) files ⊎ In (count_failure profile) calls

-- The three profiles, each dumped or counted.
abbrev pub AllAccounted : Platform → Manager → List String → List Call → Type 0
AllAccounted os m files calls =
    IsAccounted os m "cpu" files calls
    × IsAccounted os m "heap" files calls
    × IsAccounted os m "goroutine" files calls

module _ {E : Type 0} (os : Platform) where
  -- Files dumped and failures counted.
  tally : Dumped E → ℕ
  tally d = length d.files + failures d.calls

  tally-and_then : (a b : Dumped E) → tally (and_then a b) ≡ tally a + tally b
  unfolding tally and_then
  tally-and_then a b = omega (arith, length-append a.files b.files, failures-append a.calls b.calls)

  tally-dump_named :
      (m : Manager) (p : String) (t : ℕ) (env : DumpEnv E)
      → tally (dump_named_profile os m p t env) ≡ 1
  unfolding tally dump_named_profile
  tally-dump_named m p t env = ground arith

  tally-stop_server : (env : StopEnv E) (m : Manager) → tally (stop_server os env m) ≡ 0
  unfolding tally stop_server
  tally-stop_server env m = ground arith

  tally-stop_cpu :
      (env : StopEnv E) (m : Manager) → m.cpu_file ≡ true → tally (stop_cpu os env m) ≡ 1
  unfolding tally stop_cpu
  tally-stop_cpu env m h = ground arith

  tally-gc :
      (errors : List (PprofError E))
      → tally (record { files = []; errors = errors; calls = gc ∷ [] }) ≡ 0
  unfolding tally
  tally-gc errors = refl

  tally-dump_all :
      (env : StopEnv E) (m : Manager) → m.cpu_file ≡ true → tally (dump_all os env m) ≡ 3
  unfolding dump_all
  tally-dump_all env m h = omega (
    arith,
    tally-and_then,
    tally-gc [],
    tally-stop_server env m,
    tally-stop_cpu env m h,
    tally-dump_named m "heap" m.started_at env.heap,
    tally-dump_named m "goroutine" m.started_at env.goroutine,
  )

  -- A Start that no call overlaps keeps the manager consistent: stopped with nothing open, or
  -- running with everything open.
  pub start-IsConsistent :
      (env : StartEnv E) (m : Manager) → IsConsistent m → IsConsistent (start os env m).manager
  unfolding start start_body
  start-IsConsistent env m h = ground arith

  -- A Stop that no call overlaps keeps the manager consistent: stopped with nothing open, or
  -- running with everything open.
  pub stop-IsConsistent :
      (env : StopEnv E) (m : Manager) → IsConsistent m → IsConsistent (stop os env m).manager
  unfolding stop stop_body compare_and_swap
  stop-IsConsistent env m h = ground arith

  -- A Start of a consistent manager that returns an error leaves the manager as it was.
  pub start_error_restores :
      (env : StartEnv E) (m : Manager) {e : PprofError E}
      → IsConsistent m
      → (start os env m).error ≡ some e
      → (start os env m).manager ≡ m
  unfolding start start_body
  start_error_restores env m h failed = ground arith

  abbrev IsAccountedIn : Manager → String → Dumped E → Type 0
  IsAccountedIn m profile d = IsAccounted os m profile d.files d.calls

  IsAccounted-left :
      (m : Manager) (profile : String) (a b : Dumped E)
      → IsAccountedIn m profile a
      → IsAccountedIn m profile (and_then a b)
  unfolding and_then
  IsAccounted-left m profile a b (inl file) = inl (In-append_left _ a.files b.files file)
  IsAccounted-left m profile a b (inr call) = inr (In-append_left _ a.calls b.calls call)

  IsAccounted-right :
      (m : Manager) (profile : String) (a b : Dumped E)
      → IsAccountedIn m profile b
      → IsAccountedIn m profile (and_then a b)
  unfolding and_then
  IsAccounted-right m profile a b (inl file) = inl (In-append_right _ a.files b.files file)
  IsAccounted-right m profile a b (inr call) = inr (In-append_right _ a.calls b.calls call)

  named-IsAccounted :
      (m : Manager) (profile : String) (env : DumpEnv E)
      → IsAccountedIn m profile (dump_named_profile os m profile m.started_at env)
  unfolding dump_named_profile
  named-IsAccounted m profile env = elim (Bool-cases env.found) [
    | inr unknown ↦ rw (unknown) (inr (inr (inl refl)))
    | inl found ↦ elim (Option-cases env.create_answer) [
      | inr (e, bad) ↦ rw (found, bad) (inr (inr (inr (inl refl))))
      | inl made ↦ elim (Option-cases env.write_answer) [
        | inr (e, bad) ↦ rw (found, made, bad) (inr (inr (inr (inr (inl refl)))))
        | inl fine ↦ rw (found, made, fine) (inl (inl refl))
      ]
    ]
  ]

  cpu-IsAccounted :
      (env : StopEnv E) (m : Manager)
      → m.cpu_file ≡ true
      → IsAccountedIn m "cpu" (stop_cpu os env m)
  unfolding stop_cpu
  cpu-IsAccounted env m h = elim (Option-cases env.close_answer) [
    | inr (e, bad) ↦ rw (h, bad) (inr (inr (inr (inl refl))))
    | inl closed ↦ elim (Option-cases env.rename_answer) [
      | inr (e, bad) ↦ rw (h, closed, bad) (inr (inr (inr (inr (inl refl)))))
      | inl renamed ↦ rw (h, closed, renamed) (inl (inl refl))
    ]
  ]

  dump_all-AllAccounted :
      (env : StopEnv E) (m : Manager)
      → m.cpu_file ≡ true
      → AllAccounted os m (dump_all os env m).files (dump_all os env m).calls
  unfolding dump_all
  dump_all-AllAccounted env m h =
      let gone : Dumped E = record { files = []; errors = []; calls = gc ∷ [] } in
      let heap = dump_named_profile os m "heap" m.started_at env.heap in
      let goroutine = dump_named_profile os m "goroutine" m.started_at env.goroutine in
      let named = and_then heap goroutine in
      let rest = and_then gone named in
      let stopped_cpu = stop_cpu os env m in
      let server = stop_server os env m in
      (
        IsAccounted-right m "cpu" server (and_then stopped_cpu rest)
            (IsAccounted-left m "cpu" stopped_cpu rest (cpu-IsAccounted env m h)),
        IsAccounted-right m "heap" server (and_then stopped_cpu rest) (
            IsAccounted-right m "heap" stopped_cpu rest (
              IsAccounted-right m "heap" gone named
                (IsAccounted-left m "heap" heap goroutine (named-IsAccounted m "heap" env.heap)))),
        IsAccounted-right m "goroutine" server (and_then stopped_cpu rest) (
            IsAccounted-right m "goroutine" stopped_cpu rest (
              IsAccounted-right m "goroutine" gone named (
                IsAccounted-right m "goroutine" heap goroutine
                  (named-IsAccounted m "goroutine" env.goroutine)))),
      )

  stop_running :
      (env : StopEnv E) (m : Manager)
      → m.state ≡ running
      → stop os env m ≡ stop_body os env (record m { state = dumping })
  unfolding stop compare_and_swap
  stop_running env m up =
      let swapped : compare_and_swap m running dumping ≡ some (record m { state = dumping }) =
        ground arith in
      rw (swapped, stop) refl

  stop_running-AllAccounted :
      (env : StopEnv E) (m : Manager)
      → IsConsistent m
      → m.state ≡ running
      → AllAccounted os m (stop os env m).result.dumped_files (stop os env m).calls
  unfolding stop_body profile_path
  stop_running-AllAccounted env m h up =
      let open_file = (h.busy up).1 in
      subst (λ (o : StopOutcome E). AllAccounted os m o.result.dumped_files o.calls)
        (sym (stop_running env m up))
        (dump_all-AllAccounted env (record m { state = dumping }) open_file)

  -- What Stop does to a consistent manager that is running, whatever fails on the way: it is stopped
  -- with its server and its CPU profile down, and Stop answers that it changed; for each of the three
  -- profiles cpu, heap and goroutine, its file is among those that Stop names or its failure is counted
  -- under its name, and there are three files and counted failures in all.
  pub stop_always_stops :
      (env : StopEnv E) (m : Manager)
      → IsConsistent m
      → m.state ≡ running
      → ((stop os env m).result.changed ≡ true)
        × ((stop os env m).manager.state ≡ stopped)
        × ((stop os env m).manager.server ≡ false)
        × ((stop os env m).manager.profiling ≡ false)
        × (length (stop os env m).result.dumped_files + failures (stop os env m).calls ≡ 3)
        × AllAccounted os m (stop os env m).result.dumped_files (stop os env m).calls
  unfolding stop stop_body compare_and_swap tally
  stop_always_stops env m h up =
      let all = tally-dump_all env (record m { state = dumping }) in
      (
        ground arith,
        ground arith,
        ground arith,
        ground arith,
        ground (arith, all),
        stop_running-AllAccounted env m h up,
      )
