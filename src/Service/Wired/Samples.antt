-- ===== src/Service/Wired/Samples.antt =====
-- The theorem on the bootstrap applied to the configuration of the loader's samples, with a server of
-- Redis and a database that answer.
use lunaship.Base.{ℕ, String, false, none, some, List, [], ◌∷◌, ok, leb, if◌then◌else◌, ◌==◌, eqb}
use lunaship.Config.Samples.{loader, shop_config}
use lunaship.Service.Bootstrap.{BootstrapState}
use lunaship.Service.Wired.{World, Outside}
use lunaship.Service.Wired.Laws.{start_of}

abbrev outside : Outside Unit ℕ ℕ ℕ
outside = record {
  loader = loader;
  at_most = leb;
  tracing = record {
    lower = λ c. c;
    float = loader.float;
    is_zero = λ n. eqb n 0;
    parse_url = λ s. ok (record { scheme = "http"; host = s; path = "" });
    new_exporter = λ options. some "no collector";
    new_resource = λ name. none;
  };
  trace_text = λ e. "failed";
  env = λ name. "";
  ping = λ s. (none, s);
  format_dsn = λ c. c.addr;
  open_dsn =
      λ dsn. record { opened = ok (some 1); sql_db = λ db. none; migrate = λ db. (none, db) };
  sql_db = λ db. none;
  ping_db = λ db. none;
  start_text = λ e. "failed";
}

abbrev environment : String → String
environment name = if name == "APP_CONFIG_PATH" then "app.toml" else ""

abbrev world : World ℕ ℕ ℕ
world = record {
  log = none;
  tracing = record {
    error_log_disabled = false;
    closer = none;
    handler_set = false;
    provider = none;
  };
  redis = record { done = false; client = none; server = 0; warnings = 0 };
  mysql = record { done = false; db = none; limits = none; lines = [] };
  pool = none;
  metrics = false;
  gopprof = none;
}

abbrev loaded : BootstrapState (World ℕ ℕ ℕ) ℕ
loaded = record (start_of outside environment world) { cfg = some shop_config }

abbrev tail : {A : Type 0} → List A → List A
tail [] = []
tail (x ∷ xs) = xs
