-- ===== src/Storage.antt =====
-- storage/db.go: how the database is opened. The file system, gorm and the driver are parameters.
pub mod Opened
use tempmail.Prelude.{
  ℕ, ◌+◌, ◌*◌, ◌/◌, ◌%◌, Bool, not, ◌&&◌, ◌||◌, Option, none, some, List, [], ◌∷◌, ◌++◌, any, ltb,
  leb, ◌==◌, map, is_empty, if◌then◌else◌,
}
use tempmail.Text.{Text, codes, same, join}
use tempmail.Models.{Result, ok, err, ◌>>=◌}

-- url.QueryEscape of characters below 128
abbrev is_unreserved : ℕ → Bool
is_unreserved c =
    (leb b'a' c && leb c b'z')
    || ((leb b'A' c && leb c b'Z')
        || ((leb b'0' c && leb c b'9') || any (λ d. d == c) (codes "-_.~")))

abbrev hex_digit : ℕ → ℕ
hex_digit n = if ltb n 10 then n + 48 else n + 55

abbrev query_escape : Text → Text
query_escape [] = []
query_escape (c ∷ s) =
    let rest = query_escape s in
    if is_unreserved c
    then c ∷ rest
    else if c == b' '
    then b'+' ∷ rest
    else b'%' ∷ hex_digit (c / 16) ∷ hex_digit (c % 16) ∷ rest

-- the values that are added to the key "_pragma"
abbrev pub pragmas : List Text
pragmas =
    codes "journal_mode(WAL)"
    ∷ codes "busy_timeout(5000)"
    ∷ codes "synchronous(NORMAL)"
    ∷ codes "foreign_keys(ON)"
    ∷ []

abbrev pub parameter : Text → Text
parameter v = codes "_pragma=" ++ query_escape v

-- url.Values.Encode of one key
abbrev pub encoded : Text
encoded = join (map parameter pragmas) (codes "&")

unfoldable pub build_dsn : Text → Text
build_dsn path = path ++ ((if any (λ c. c == b'?') path then b'&' else b'?') ∷ encoded)

-- What Open calls: filepath.Dir, os.MkdirAll, gorm.Open over the driver for a DSN, DB, the three limits of
-- the pool, and AutoMigrate of the two tables; `none` is a nil error.
pub record Driver (Handle Pool : Type 0) : Type 0 where
  pub dir : Text → Text
  pub make_dirs : Text → Option Text
  pub open_dsn : Text → Result Text Handle
  pub sql_db : Handle → Result Text Pool
  pub migrate : Handle → Option Text

module _ {Handle Pool : Type 0} (drv : Driver Handle Pool) where
  migrated : Handle → Option Text → Result Text Handle
  migrated db none = ok db
  migrated db (some e) = err (codes "auto-migrate: " ++ e)

  -- the limits of the pool are set here
  pooled : Handle → Result Text Pool → Result Text Handle
  unfolding migrated
  pooled db (ok pool) = migrated db (drv.migrate db)
  pooled db (err e) = err (codes "get sql.DB: " ++ e)

  opened : Result Text Handle → Result Text Handle
  unfolding pooled
  opened (ok db) = pooled db (drv.sql_db db)
  opened (err e) = err (codes "open sqlite: " ++ e)

  made : Text → Option Text → Result Text Handle
  unfolding opened build_dsn
  made path none = opened (drv.open_dsn (build_dsn path))
  made path (some e) = err (codes "create db dir: " ++ e)

  -- Open
  unfoldable pub open_db : Text → Result Text Handle
  unfolding made
  open_db path =
      let dir = drv.dir path in
      made path
        (if not (is_empty dir) && not (same dir (codes ".")) then drv.make_dirs dir else none)
