-- ===== src/Infra/Pprof.antt =====
-- infra/pprof.go: the profiler that is started and stopped while the service runs. An operation is
-- a compare-and-swap on the atomic `state`, then a body under the mutex; the bodies exclude one
-- another, so each is one step here, and the compare-and-swap before it is another.
-- What a call of the operating system answers is an argument; the calls made are recorded in order.
pub mod Start
pub mod Stop
pub mod Laws
pub mod Race
pub mod Handlers
pub mod Serve
use Prim.Native.String.{◌++◌ as ◌<>◌}
use lunaship.Base.{
  ℕ, ◌+◌, String, Bool, true, false, not, Option, none, some, List, [], ◌∷◌, ◌++◌, ◌&&◌, ◌||◌,
  if◌then◌else◌, ◌==◌, Result, ok, err,
}
use lunaship.Base.Text.{trim_space, str_or_default}

pub data PprofState : Type 0 where
  stopped running dumping : PprofState

-- pprofState.String
unfoldable pub state_string : PprofState → String
state_string running = "running"
state_string dumping = "dumping"
state_string stopped = "stopped"

-- The calls that the program makes of the operating system, the runtime and the metrics.
pub data Call : Type 0 where
  mkdir_all : (dir : String) → Call
  create : (path : String) → Call
  start_cpu_profile stop_cpu_profile : Call
  close_file : Call
  remove : (path : String) → Call
  listen : (addr : String) → Call
  serve shutdown : Call
  rename : (source target : String) → Call
  gc : Call
  lookup write_to : (profile : String) → Call
  count_failure : (profile : String) → Call

-- An error of one of those calls, as the program passes it on.
pub data PprofError (E : Type 0) : Type 0 where
  plain : E → PprofError E
  close_cpu rename_cpu : E → PprofError E
  profile_not_found : (profile : String) → PprofError E
  already_profiling : PprofError E

-- filepath.Join and the time layout 20060102-150405 of a time in UTC.
pub record Platform : Type 0 where
  pub join_path : String → String → String
  pub stamp : ℕ → String

-- DynamicPprof. The server and the open file are held as their being there; `profiling` is the
-- runtime's: whether a CPU profile is being written.
pub record Manager : Type 0 where
  pub addr : String
  pub app_name : String
  pub dump_dir : String
  pub state : PprofState
  pub server : Bool
  pub started_at : ℕ
  pub cpu_file : Bool
  pub cpu_tmp : String
  pub profiling : Bool

pub record StopResult : Type 0 where
  pub changed : Bool
  pub state : String
  pub dumped_files : List String

unfoldable pub new_dynamic_pprof : (addr dump_dir app_name : String) → Manager
new_dynamic_pprof addr dump_dir app_name = record {
  addr = str_or_default (trim_space addr) ":6060";
  app_name = trim_space app_name;
  dump_dir = str_or_default (trim_space dump_dir) "/tmp";
  state = stopped;
  server = false;
  started_at = 0;
  cpu_file = false;
  cpu_tmp = "";
  profiling = false;
}

-- What the calls of one Start answer: an error, or nothing; and the time.
pub record StartEnv (E : Type 0) : Type 0 where
  pub mkdir_answer : Option E
  pub create_answer : Option E
  pub profile_answer : Option E
  pub listen_answer : Option E
  pub now : ℕ

pub record DumpEnv (E : Type 0) : Type 0 where
  pub found : Bool
  pub create_answer : Option E
  pub write_answer : Option E

pub record StopEnv (E : Type 0) : Type 0 where
  pub shutdown_answer : Option E
  pub close_answer : Option E
  pub rename_answer : Option E
  pub heap : DumpEnv E
  pub goroutine : DumpEnv E

module _ (os : Platform) where
  abbrev file_path : Manager → ℕ → String → String → String
  file_path m started_at profile suffix =
      os.join_path m.dump_dir
        ("pprof-" <> m.app_name <> "-" <> os.stamp started_at <> "-" <> profile <> suffix)

  unfoldable pub profile_path : Manager → ℕ → String → String
  profile_path m started_at profile = file_path m started_at profile ".prof"

  unfoldable pub tmp_cpu_profile_path : Manager → ℕ → String
  tmp_cpu_profile_path m started_at = file_path m started_at "cpu" ".tmp"
