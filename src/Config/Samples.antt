-- ===== src/Config/Samples.antt =====
-- The theorems on loading applied to a loader whose file decodes to one configuration. The floats of
-- the samples are numbers of thousandths.
use lunaship.Base.{
  ℕ, ◌-◌, String, true, Option, none, some, [], ◌∷◌, ◌≡◌, refl, ◌↔◌, ok, ltb, if◌then◌else◌, ◌==◌,
  inr,
}
use lunaship.Base.Int.{pos}
use lunaship.Base.Text.{trim_space, to_lower, contains}
use lunaship.ConfigParse.{trim_string_slice}
use lunaship.ConfigParse.Lookup.{Fields}
use lunaship.Config.Report.{IsClean}
use lunaship.Config.App.{Floats, AppSection, normalize_app, IsValidApp, has_three_decimal_precision}
use lunaship.Config.Kafka.{normalize_kafka, normalize_producer, normalize_consumer}
use lunaship.Config.Load.{
  AppConfig, Loader, default_config, normalized, validate_config, load_fields, load_from_bytes,
  load, IsValidConfig, validate_config-IsValidConfig,
}
use lunaship.Config.Outcome.{IsFullyUsed, load_fields-ok, load-IsValidConfig}

abbrev literals : String → ℕ
literals s = if s == "0.001" then 1 else if s == "1" then 1000 else if s == "1e-9" then 1 else 0

abbrev thousandths : Floats ℕ
thousandths = record {
  literal = literals;
  less = ltb;
  sub = ◌-◌;
  mul = λ a b. a;
  abs = λ a. a;
  round = λ a. a;
}

abbrev pub shop : AppSection ℕ
shop = record {
  app_name = "shop";
  log = record { level = "info" };
  trace = record {
    enabled = true;
    endpoint = "";
    protocol = "http";
    trace_endpoint = "";
    sample_rate = 500;
  };
  pprof = record { mode = "dynamic"; enabled = true };
}

abbrev pub shop_config : AppConfig ℕ
shop_config = record {
  app = shop;
  redis = record {
    instances =
        ("default", record { addr = "db"; port = pos 6379; password = ""; db = pos 0 }) ∷ [];
  };
  mysql = record {
    max_open_conns = pos 200;
    max_idle_conns = pos 100;
    max_idle_time = pos 0;
    instances =
        (
          "default",
          record {
            host = "db";
            port = pos 3306;
            username = "root";
            password = "";
            database = "shop";
            ping_enabled = true;
          },
        )
        ∷ [];
  };
  kafka = record {
    producer = ("events", record { brokers = "k1:9092" ∷ []; topic = "events"; acks = "all" }) ∷ [];
    consumer = [];
  };
  custom = Fields.end;
  raw = Fields.end;
}

abbrev pub loader : Loader Unit ℕ
loader = record {
  float = thousandths;
  lower = λ c. c;
  read_file = λ path. ok tt;
  unmarshal = λ body. ok none;
  decode = λ raw c. record { target = shop_config; unused = some []; failure = none };
}

pub shop-IsValidApp : IsValidApp loader.lower loader.float shop
unfolding trim_space to_lower contains has_three_decimal_precision
shop-IsValidApp = record {
  named = refl;
  level = refl;
  protocol = refl;
  at_least = refl;
  at_most = refl;
  precise = refl;
  mode = refl;
}

shop_config-IsValidConfig : IsValidConfig loader shop_config
unfolding trim_space contains
shop_config-IsValidConfig = record {
  app = shop-IsValidApp;
  redis = (record { addr = refl; port = refl; db = refl }, tt);
  mysql = record {
    opened = refl;
    idle = refl;
    fits = refl;
    time = refl;
    instances = (record { host = refl; port = refl; username = refl; database = refl }, tt);
  };
  kafka = record {
    producers = (record { brokers = ((λ e. cc), (refl, tt)); topic = refl; acks = refl }, tt);
    consumers = tt;
  };
}

validate_config-IsValidConfig_example :
    IsClean (validate_config loader shop_config (some []))
    ↔ (IsClean (some []) × IsValidConfig loader shop_config)
validate_config-IsValidConfig_example = validate_config-IsValidConfig loader shop_config (some [])

load_fields-ok_example : (load_fields loader Fields.end ≡ ok shop_config) ↔ (
    IsFullyUsed loader (loader.decode Fields.end (default_config loader Fields.end))
    × IsValidConfig loader shop_config
    × (normalized loader (loader.decode Fields.end (default_config loader Fields.end)).target
        ≡ shop_config))
load_fields-ok_example = load_fields-ok loader Fields.end shop_config

normalized_shop : normalized loader shop_config ≡ shop_config
unfolding normalize_app normalize_kafka normalize_producer normalize_consumer trim_space to_lower
    trim_string_slice
normalized_shop = refl

pub shop_loads : load loader "app.toml" ≡ ok shop_config
unfolding load load_from_bytes
shop_loads =
    (load_fields-ok loader Fields.end shop_config).1
      ((refl, inr refl), shop_config-IsValidConfig, normalized_shop)

load-IsValidConfig_example :
    (body : Unit) × (raw : Option Fields) × (loader.read_file "app.toml" ≡ ok body)
    × (loader.unmarshal body ≡ ok raw)
    × IsValidConfig loader shop_config
load-IsValidConfig_example = load-IsValidConfig loader "app.toml" shop_config shop_loads
