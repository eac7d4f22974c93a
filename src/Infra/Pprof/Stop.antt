-- ===== src/Infra/Pprof/Stop.antt =====
-- infra/pprof.go: DynamicPprof.Stop and dumpNamedProfile.
use lunaship.Base.{ℕ, String, true, false, none, some, List, [], ◌∷◌, ◌++◌, if◌then◌else◌}
use lunaship.Infra.Pprof.{
  stopped, running, dumping, state_string, Call, create, stop_cpu_profile, close_file, remove,
  shutdown, rename, gc, lookup, write_to, count_failure, PprofError, plain, close_cpu, rename_cpu,
  profile_not_found, Platform, Manager, StopResult, DumpEnv, StopEnv, profile_path,
}
use lunaship.Infra.Pprof.Start.{compare_and_swap}

-- What one part of Stop adds: the files dumped, the errors, and the calls.
pub record Dumped (E : Type 0) : Type 0 where
  pub files : List String
  pub errors : List (PprofError E)
  pub calls : List Call

pub record StopOutcome (E : Type 0) : Type 0 where
  pub result : StopResult
  pub errors : List (PprofError E)
  pub manager : Manager
  pub calls : List Call

abbrev nothing : {E : Type 0} → Dumped E
nothing = record { files = []; errors = []; calls = [] }

unfoldable pub and_then : {E : Type 0} → Dumped E → Dumped E → Dumped E
and_then a b = record {
  files = a.files ++ b.files;
  errors = a.errors ++ b.errors;
  calls = a.calls ++ b.calls;
}

module _ {E : Type 0} (os : Platform) where
  -- dumpNamedProfile
  unfoldable pub dump_named_profile : Manager → String → ℕ → DumpEnv E → Dumped E
  dump_named_profile m name started_at env =
      let path = profile_path os m started_at name in
      elim env.found [
        | false ↦ record {
          files = [];
          errors = profile_not_found name ∷ [];
          calls = lookup name ∷ count_failure name ∷ [];
        }
        | true ↦ elim env.create_answer [
          | some e ↦ record {
            files = [];
            errors = plain e ∷ [];
            calls = lookup name ∷ create path ∷ count_failure name ∷ [];
          }
          | none ↦ elim env.write_answer [
            | some e ↦ record {
              files = [];
              errors = plain e ∷ [];
              calls =
                  lookup name
                  ∷ create path
                  ∷ write_to name
                  ∷ count_failure name
                  ∷ remove path
                  ∷ close_file
                  ∷ [];
            }
            | none ↦ record {
              files = path ∷ [];
              errors = [];
              calls = lookup name ∷ create path ∷ write_to name ∷ close_file ∷ [];
            }
          ]
        ]
      ]

  module _ (env : StopEnv E) where
    unfoldable pub stop_server : Manager → Dumped E
    stop_server m = elim m.server [
      | false ↦ nothing
      | true ↦ elim env.shutdown_answer [
        | some e ↦ record { files = []; errors = plain e ∷ []; calls = shutdown ∷ [] }
        | none ↦ record { files = []; errors = []; calls = shutdown ∷ [] }
      ]
    ]

    unfoldable pub stop_cpu : Manager → Dumped E
    stop_cpu m =
        let final = profile_path os m m.started_at "cpu" in
        elim m.cpu_file [
          | false ↦ nothing
          | true ↦ elim env.close_answer [
            | some e ↦ record {
              files = [];
              errors = close_cpu e ∷ [];
              calls = stop_cpu_profile ∷ close_file ∷ count_failure "cpu" ∷ [];
            }
            | none ↦ elim env.rename_answer [
              | some e ↦ record {
                files = [];
                errors = rename_cpu e ∷ [];
                calls =
                    stop_cpu_profile
                    ∷ close_file
                    ∷ rename m.cpu_tmp final
                    ∷ count_failure "cpu"
                    ∷ [];
              }
              | none ↦ record {
                files = final ∷ [];
                errors = [];
                calls = stop_cpu_profile ∷ close_file ∷ rename m.cpu_tmp final ∷ [];
              }
            ]
          ]
        ]

    -- All that Stop dumps, in its order.
    unfoldable pub dump_all : Manager → Dumped E
    dump_all m = and_then (stop_server m) (
        and_then (stop_cpu m) (
          and_then (record { files = []; errors = []; calls = gc ∷ [] })
            (and_then (dump_named_profile m "heap" m.started_at env.heap)
              (dump_named_profile m "goroutine" m.started_at env.goroutine))))

    -- The body under the mutex.
    unfoldable pub stop_body : Manager → StopOutcome E
    stop_body m =
        let all = dump_all m in
        record {
          result = record {
            changed = true;
            state = state_string stopped;
            dumped_files = all.files;
          };
          errors = all.errors;
          manager = record m {
            state = stopped;
            server = false;
            started_at = 0;
            cpu_file = false;
            cpu_tmp = "";
            profiling = if m.cpu_file then false else m.profiling;
          };
          calls = all.calls;
        }

    -- A call of Stop that no other call overlaps.
    unfoldable pub stop : Manager → StopOutcome E
    stop m = elim (compare_and_swap m running dumping) [
      | none ↦ record {
        result = record { changed = false; state = state_string m.state; dumped_files = [] };
        errors = [];
        manager = m;
        calls = [];
      }
      | some m' ↦ stop_body m'
    ]
