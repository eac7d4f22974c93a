-- ===== src/Infra/Samples.antt =====
-- The theorems on the profiler applied to runs of a manager.
use lunaship.Base.{List, [], ◌∷◌, All, ◌+◌, String, true, false, none, some, ◌≡◌, refl, length}
use lunaship.Infra.Pprof.{stopped, running, Platform, Manager, StartEnv, StopEnv, new_dynamic_pprof}
use lunaship.Infra.Pprof.Start.{start, start_body, compare_and_swap}
use lunaship.Infra.Pprof.Stop.{stop}
use lunaship.Infra.Pprof.Serve.{
  ControlRequest, to_start, to_stop, ReportsState, serve_requests, requests-Sound,
}
use lunaship.Infra.Pprof.Laws.{
  AllAccounted, IsConsistent, new-IsConsistent, start-IsConsistent, start_error_restores,
  stop_always_stops, failures,
}
use lunaship.Infra.Pprof.Race.{
  World, Reach, here, next, begin_start, quiet, fine, FieldsAgree, IsLeaked, race_leaks, leak_stays,
  Reach-FieldsAgree,
}

abbrev unix : Platform
unix = record { join_path = λ dir name. dir; stamp = λ t. "19700101-000000" }

abbrev manager : Manager
manager = new_dynamic_pprof "" "" "shop"

-- A Start for which the port is in use.
abbrev port_in_use : StartEnv String
port_in_use = record {
  mkdir_answer = none;
  create_answer = none;
  profile_answer = none;
  listen_answer = some "in use";
  now = 7;
}

-- A Stop in which the heap profile cannot be written and the server does not shut down in time.
abbrev bad_stop : StopEnv String
bad_stop = record {
  shutdown_answer = some "deadline";
  close_answer = none;
  rename_answer = none;
  heap = record { found = true; create_answer = none; write_answer = some "disk full" };
  goroutine = record { found = true; create_answer = none; write_answer = none };
}

abbrev started : Manager
started = (start unix (fine String unix 7) manager).manager

started-IsConsistent : IsConsistent started
started-IsConsistent =
    start-IsConsistent unix (fine String unix 7) manager (new-IsConsistent "" "" "shop")

-- A Start that fails, one that does not, a method that is refused, and a Stop.
abbrev control : List (ControlRequest String)
control =
    to_start "GET" port_in_use
    ∷ to_start "POST" (fine String unix 7)
    ∷ to_stop "PUT" bad_stop
    ∷ to_stop "POST" bad_stop
    ∷ []

requests-Sound_example :
    All (λ q. IsConsistent q.1 × ReportsState unix q.0 q.1) (serve_requests unix control manager)
requests-Sound_example = requests-Sound unix control manager (new-IsConsistent "" "" "shop")

start_error_restores_example : (start unix port_in_use manager).manager ≡ manager
unfolding start start_body compare_and_swap new_dynamic_pprof
start_error_restores_example =
    start_error_restores unix port_in_use manager (new-IsConsistent "" "" "shop") refl

stop_always_stops_example :
    ((stop unix bad_stop started).result.changed ≡ true)
    × ((stop unix bad_stop started).manager.state ≡ stopped)
    × ((stop unix bad_stop started).manager.server ≡ false)
    × ((stop unix bad_stop started).manager.profiling ≡ false)
    × (length (stop unix bad_stop started).result.dumped_files
          + failures (stop unix bad_stop started).calls
        ≡ 3)
    × AllAccounted unix started
        (stop unix bad_stop started).result.dumped_files
        (stop unix bad_stop started).calls
unfolding start start_body compare_and_swap new_dynamic_pprof
stop_always_stops_example = stop_always_stops unix bad_stop started started-IsConsistent refl

race_leaks_example :
    (after : Manager) × Reach String unix (quiet String unix manager) (quiet String unix after)
    × IsLeaked String unix after
unfolding new_dynamic_pprof
race_leaks_example = race_leaks String unix manager 7 bad_stop (new-IsConsistent "" "" "shop") refl

abbrev leaked : Manager
leaked = record {
  addr = ":6060";
  app_name = "shop";
  dump_dir = "/tmp";
  state = stopped;
  server = true;
  started_at = 7;
  cpu_file = true;
  cpu_tmp = "cpu.tmp";
  profiling = true;
}

leak_stays_example : All (λ q. q.1 ≡ leaked) (serve_requests unix control leaked)
leak_stays_example = leak_stays String unix control leaked (refl, refl, refl)

abbrev claimed : Manager
claimed = record manager { state = running }

-- A Start has passed its compare-and-swap.
abbrev starting : World
starting = record { manager = claimed; starting = 1; stopping = 0 }

Reach-FieldsAgree_example : FieldsAgree String unix starting
unfolding new_dynamic_pprof compare_and_swap
Reach-FieldsAgree_example =
    Reach-FieldsAgree String unix {w = quiet String unix manager} (refl, refl)
      (next here (begin_start claimed refl))
