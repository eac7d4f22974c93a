-- ===== src/Service/Wired/Mysql.antt =====
-- service/setup.go: what the Init function of the module `mysql` makes of the globals of MySQL.
use lunaship.Base.{
  String, Option, none, some, ◌≡◌, refl, Result, ok, err, arith, ap, ◌∙◌, sym, Option-cases, inl,
  inr, subst,
}
use lunaship.Config.Instances.{MysqlConfig, MysqlInstance}
use lunaship.Config.Load.{AppConfig}
use lunaship.Mysql.{MysqlError, MysqlGlobals}
use lunaship.Service.Bootstrap.{BootstrapState, InitError, init_mysql_module, start_selected}
use lunaship.Service.Clients.{Pool, start_mysql, configure_pool, pool_of, pinged, after_init}
use lunaship.Service.Instance.{Ambiguous, select_bootstrap_instance}
use lunaship.Service.Wired.Steps.{database_of}
use lunaship.Service.Wired.{World, Outside, wired, init_mysql_in}

module _ {B S D F : Type 0} (out : Outside B S D F) where
  abbrev State : Type 0
  State = BootstrapState (World S D F) F

  -- The globals of MySQL after the module: nothing has changed if no instance is configured; else the
  -- pool of the global database is given the configured limits, and the database has answered its ping
  -- if the instance asks for one.
  abbrev pub MysqlStarted :
      MysqlConfig
      → Result Ambiguous (Option (String × MysqlInstance))
      → (d d' : MysqlGlobals D × Option Pool) → Type 0
  MysqlStarted c (err e) d d' = ⊥
  MysqlStarted c (ok none) d d' = d' ≡ d
  MysqlStarted c (ok (some (name, i))) d d' =
      (db : D) × (d'.0.db ≡ some db)
      × (d'.1 ≡ some (pool_of c))
      × (out.sql_db db ≡ none)
      × (pinged out.sql_db out.ping_db i.ping_enabled db ≡ none)

  configure-MysqlStarted :
      (i : MysqlInstance) (c : MysqlConfig) (db : Option D)
      → (configure_pool out.sql_db out.ping_db i c db).0 ≡ none
      → (d : D) × (db ≡ some d)
        × ((configure_pool out.sql_db out.ping_db i c db).1 ≡ some (pool_of c))
        × (out.sql_db d ≡ none)
        × (pinged out.sql_db out.ping_db i.ping_enabled d ≡ none)
  unfolding configure_pool
  configure-MysqlStarted i c none fine = cc
  configure-MysqlStarted i c (some d) fine = elim (Option-cases (out.sql_db d)) [
    | inl good ↦ (d, refl, ground arith, good, ground arith)
    | inr (e, bad) ↦ ground (arith, bad)
  ]

  after_init-MysqlStarted :
      (i : MysqlInstance) (c : MysqlConfig) (error : Option (MysqlError String))
      (g : MysqlGlobals D)
      → (after_init out.sql_db out.ping_db i c error g).0 ≡ none
      → (d : D) × ((after_init out.sql_db out.ping_db i c error g).1.db ≡ some d)
        × ((after_init out.sql_db out.ping_db i c error g).2 ≡ some (pool_of c))
        × (out.sql_db d ≡ none)
        × (pinged out.sql_db out.ping_db i.ping_enabled d ≡ none)
  after_init-MysqlStarted i c (some e) g fine = cc
  after_init-MysqlStarted i c none g fine = configure-MysqlStarted i c g.db fine

  abbrev start_in : MysqlConfig → MysqlInstance → World S D F → Option String × World S D F
  start_in c i = init_mysql_in out i c

  start_selected-MysqlStarted :
      (c : MysqlConfig) (chosen : Result Ambiguous (Option (String × MysqlInstance))) (s : State)
      → (start_selected (wired out) chosen (start_in c) s).0 ≡ none
      → MysqlStarted c chosen
          (database_of out s.world)
          (database_of out (start_selected (wired out) chosen (start_in c) s).1.world)
  unfolding init_mysql_in start_mysql
  start_selected-MysqlStarted c (err e) s fine = cc
  start_selected-MysqlStarted c (ok none) s fine = refl
  start_selected-MysqlStarted c (ok (some (name, i))) s fine =
      after_init-MysqlStarted i c _ _ (ground arith)

  pub mysql-starts :
      (cfg : AppConfig F) (s : State)
      → s.cfg ≡ some cfg
      → (init_mysql_module (wired out) s).0 ≡ none
      → MysqlStarted cfg.mysql
          (select_bootstrap_instance cfg.mysql.instances "mysql")
          (database_of out s.world)
          (database_of out (init_mysql_module (wired out) s).1.world)
  unfolding init_mysql_module
  mysql-starts cfg s there fine =
      let chosen = select_bootstrap_instance cfg.mysql.instances "mysql" in
      let same : init_mysql_module (wired out) s
          ≡ start_selected (wired out) chosen (start_in cfg.mysql) s =
        ap
          (λ o. elim o as (λ o. Option InitError × State) [
            | none ↦ (none, s)
            | some cfg ↦
                start_selected (wired out) (select_bootstrap_instance cfg.mysql.instances "mysql")
                  (start_in cfg.mysql) s
          ])
          there in
      subst
        (λ r. MysqlStarted cfg.mysql chosen (database_of out s.world) (database_of out r.1.world))
        (sym same)
        (start_selected-MysqlStarted cfg.mysql chosen s (ap (λ r. r.0) (sym same) ∙ fine))
