-- ===== src/Service/Samples.antt =====
-- The theorems on the bootstrap applied to the configuration of the loader's samples.
use lunaship.Base.{ℕ, String, true, none, some, List, [], ◌∷◌, ◌≡◌, refl, ◌≢◌, ◌⊎◌, ok, In, leb}
use lunaship.Config.Samples.{loader}
use lunaship.Service.Instance.{
  find_instance, select_bootstrap_instance, select_bootstrap_instance-In,
}
use lunaship.Base.Int.{pos}
use lunaship.Config.Instances.{RedisInstance, MysqlInstance}
use lunaship.ModuleApi.Execute.{execute, init_failed}
use lunaship.Service.Bootstrap.{
  BootstrapState, Libraries, build_default_init_modules, initial_state, nil_config,
}
use lunaship.Service.Reads.{default_modules-read_config}

abbrev quiet_libraries : Libraries Unit ℕ ℕ
quiet_libraries = record {
  loader = loader;
  at_most = leb;
  init_log = λ log_file err_file level w. w;
  init_tracing = λ conf w. (none, w);
  init_redis = λ i w. (none, w);
  init_mysql = λ i c w. (none, w);
  init_metrics = λ w. w;
  init_gopprof = λ addr w. (none, w);
}

abbrev two_instances : List (String × ℕ)
two_instances = ("replica", 1) ∷ ("default", 2) ∷ []

default_chosen : select_bootstrap_instance two_instances "redis" ≡ ok (some ("default", 2))
unfolding select_bootstrap_instance find_instance
default_chosen = refl

select_bootstrap_instance-In_example :
    In ("default", 2) two_instances
    × ((◌≡◌ {A = String} "default" "default") ⊎ (two_instances ≡ ("default", 2) ∷ []))
select_bootstrap_instance-In_example =
    select_bootstrap_instance-In two_instances "redis" ("default", 2) default_chosen

abbrev cache : RedisInstance
cache = record { addr = "redis"; port = pos 6379; password = ""; db = pos 0 }

abbrev database : MysqlInstance
database = record {
  host = "db-1";
  port = pos 3306;
  username = "root";
  password = "";
  database = "shop";
  ping_enabled = true;
}

abbrev start_state : BootstrapState ℕ ℕ
start_state = initial_state quiet_libraries (λ name. "") 0

default_modules-read_config_example :
    (execute (build_default_init_modules quiet_libraries) start_state).0
    ≢ some (init_failed "log" nil_config)
default_modules-read_config_example = default_modules-read_config quiet_libraries start_state "log"
