-- ===== src/Examples/Opening.antt =====
-- A database that is opened, and the start of the process.
use tempmail.Prelude.{◌≡◌, refl, ℕ, none, ◌++◌, map, All}
use tempmail.Text.{Text, codes, to_lower, trim_space}
use tempmail.Config.Values.{get, get_int, get_bool, parse_domains, atoi}
use tempmail.Models.{ok}
use tempmail.Storage.{Driver, pragmas, parameter, build_dsn, open_db}
use tempmail.Storage.Opened.{file_of, query_of, parameters, IsOpened}
use tempmail.Config.Valid.{IsReady, IsDomain}
use tempmail.Process.{start_up}
use tempmail.Process.Started.{start_up_lem}
use tempmail.Examples.Fixtures.{ascii}
use tempmail.Examples.Starting.{settings, loaded}

-- a handle is the DSN that it was opened with
abbrev driver : Driver Text ℕ
driver = record {
  dir = λ path. codes "./data";
  make_dirs = λ dir. none;
  open_dsn = λ dsn. ok dsn;
  sql_db = λ db. ok 16;
  migrate = λ db. none;
}

abbrev data_path : Text
data_path = codes "./data/tempmail.db"

abbrev data_dsn : Text
data_dsn =
    codes "./data/tempmail.db?_pragma=journal_mode%28WAL%29&_pragma=busy_timeout%285000%29"
    ++ codes "&_pragma=synchronous%28NORMAL%29&_pragma=foreign_keys%28ON%29"

opens : open_db driver data_path ≡ ok data_dsn
unfolding open_db build_dsn
opens = refl

boots : start_up driver settings ≡ ok (loaded, data_dsn)
unfolding start_up tempmail.Config.load get get_int get_bool parse_domains atoi to_lower trim_space
    open_db build_dsn
boots = refl

start_up_lem_example :
    IsReady loaded
    × All IsDomain loaded.domains
    × ((dsn : Text) × IsOpened driver data_dsn (driver.open_dsn dsn)
        × (file_of dsn ≡ file_of data_path)
        × (parameters (query_of dsn) ≡ parameters (query_of data_path) ++ map parameter pragmas))
start_up_lem_example = start_up_lem driver settings loaded data_dsn boots
