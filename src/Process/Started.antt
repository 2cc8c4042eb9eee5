-- ===== src/Process/Started.antt =====
-- About the start of main.go: what a process that serves has loaded and opened.
use tempmail.Prelude.{◌≡◌, subst, ap, ◌++◌, map, All}
use tempmail.Text.{Text, Unicode}
use tempmail.Models.{Result, ok, err}
use tempmail.Config.{Config, load}
use tempmail.Config.Values.{Env, ConfigError}
use tempmail.Config.Valid.{IsReady, IsDomain, load-IsReady}
use tempmail.Storage.{Driver, open_db, parameter, pragmas}
use tempmail.Storage.Opened.{IsOpened, parameters, query_of, file_of, open_db_lem}
use tempmail.Process.{opened_for, loaded_as, start_up}

module _ {Handle Pool : Type 0} (drv : Driver Handle Pool) ⦃u : Unicode⦄ where
  opened_for-ok :
      (c cfg : Config) (db : Handle) (r : Result Text Handle)
      → opened_for drv c r ≡ ok (cfg, db)
      → (c ≡ cfg) × (r ≡ ok db)
  unfolding opened_for
  opened_for-ok c cfg db (ok h) e = (cc e, cc e)
  opened_for-ok c cfg db (err x) e = absurd (cc e)

  loaded_as-ok :
      (r : Result ConfigError Config) (cfg : Config) (db : Handle)
      → loaded_as drv r ≡ ok (cfg, db)
      → (r ≡ ok cfg) × (open_db drv cfg.db_path ≡ ok db)
  unfolding loaded_as
  loaded_as-ok (ok c) cfg db e =
      let (same, q) = opened_for-ok c cfg db (open_db drv c.db_path) e in
      (ap ok same, subst (λ (x : Config). open_db drv x.db_path ≡ ok db) same q)
  loaded_as-ok (err x) cfg db e = absurd (cc e)

  -- A process that gets to its handlers has a configuration with a key, a primary domain and a way for mail to
  -- come in, all of whose domains are in lower case, not empty and not `example.com`; and a database that was
  -- opened and migrated, by a DSN that names the file of the path of the configuration and whose parameters are those of the path, if it
  -- has any, and then the four pragmas.
  pub start_up_lem :
      (env : Env) (cfg : Config) (db : Handle)
      → start_up drv env ≡ ok (cfg, db)
      → IsReady cfg
        × All IsDomain cfg.domains
        × ((dsn : Text) × IsOpened drv db (drv.open_dsn dsn)
            × (file_of dsn ≡ file_of cfg.db_path)
            × (parameters (query_of dsn)
                ≡ parameters (query_of cfg.db_path) ++ map parameter pragmas))
  unfolding start_up
  start_up_lem env cfg db e =
      let (loaded, opened) = loaded_as-ok (load env) cfg db e in
      let (ready, domains) = load-IsReady env cfg loaded in
      (ready, domains, open_db_lem drv cfg.db_path db opened)
