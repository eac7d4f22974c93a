-- ===== src/Infra/Pprof/Start.antt =====
-- infra/pprof.go: DynamicPprof.Start.
use lunaship.Base.{Bool, true, false, Option, none, some, List, [], ◌∷◌, if◌then◌else◌}
use lunaship.Infra.Pprof.{
  PprofState, stopped, running, dumping, Call, mkdir_all, create, start_cpu_profile,
  stop_cpu_profile, close_file, remove, listen, serve, PprofError, plain, already_profiling,
  Platform, Manager, StartEnv, tmp_cpu_profile_path,
}

-- What Start returns, the manager that it leaves, and the calls that it made.
pub record StartOutcome (E : Type 0) : Type 0 where
  pub changed : Bool
  pub error : Option (PprofError E)
  pub manager : Manager
  pub calls : List Call

-- state.CompareAndSwap(stopped, running)
abbrev swap_state : PprofState → PprofState → PprofState → Option PprofState
swap_state stopped stopped new = some new
swap_state running running new = some new
swap_state dumping dumping new = some new
swap_state _ _ new = none

unfoldable pub compare_and_swap : Manager → PprofState → PprofState → Option Manager
compare_and_swap m old new = elim (swap_state m.state old new) [
  | none ↦ none
  | some s ↦ some (record m { state = s })
]

abbrev pub plain_error : {E : Type 0} → Option E → Option (PprofError E)
plain_error none = none
plain_error (some e) = some (plain e)

-- `m.state.Store(stopped)` and the return of an error.
abbrev give_up : {E : Type 0} → Manager → PprofError E → List Call → StartOutcome E
give_up m e calls = record {
  changed = false;
  error = some e;
  manager = record m { state = stopped };
  calls = calls;
}

module _ {E : Type 0} (os : Platform) (env : StartEnv E) where
  -- runtimepprof.StartCPUProfile fails while a profile is being written.
  abbrev profile_error : Manager → Option (PprofError E)
  profile_error m = if m.profiling then some already_profiling else plain_error env.profile_answer

  -- The body under the mutex.
  unfoldable pub start_body : Manager → StartOutcome E
  start_body m =
      let path = tmp_cpu_profile_path os m env.now in
      elim env.mkdir_answer [
        | some e ↦ give_up m (plain e) (mkdir_all m.dump_dir ∷ [])
        | none ↦ elim env.create_answer [
          | some e ↦ give_up m (plain e) (mkdir_all m.dump_dir ∷ create path ∷ [])
          | none ↦ elim (profile_error m) [
            | some e ↦ give_up m e (
                mkdir_all m.dump_dir
                ∷ create path
                ∷ start_cpu_profile
                ∷ close_file
                ∷ remove path
                ∷ [])
            | none ↦ elim env.listen_answer [
              | some e ↦ give_up m (plain e) (
                  mkdir_all m.dump_dir
                  ∷ create path
                  ∷ start_cpu_profile
                  ∷ listen m.addr
                  ∷ stop_cpu_profile
                  ∷ close_file
                  ∷ remove path
                  ∷ [])
              | none ↦ record {
                changed = true;
                error = none;
                manager = record m {
                  server = true;
                  started_at = env.now;
                  cpu_file = true;
                  cpu_tmp = path;
                  profiling = true;
                };
                calls =
                    mkdir_all m.dump_dir
                    ∷ create path
                    ∷ start_cpu_profile
                    ∷ listen m.addr
                    ∷ serve
                    ∷ [];
              }
            ]
          ]
        ]
      ]

  -- A call of Start that no other call overlaps.
  unfoldable pub start : Manager → StartOutcome E
  unfolding compare_and_swap
  start m = elim (compare_and_swap m stopped running) [
    | none ↦ record { changed = false; error = none; manager = m; calls = [] }
    | some m' ↦ start_body m'
  ]
