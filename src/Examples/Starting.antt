-- ===== src/Examples/Starting.antt =====
-- The configuration that the service starts with.
use tempmail.Prelude.{◌≡◌, refl, true, false, [], ◌∷◌, arith, if◌then◌else◌}
use tempmail.Prelude.Int.{pos}
use tempmail.Text.{Text, codes, same, to_lower, trim_space, is_space, split}
use tempmail.Models.{Result, ok}
use tempmail.EnvFile.{persist_refresh_token, replace_line}
use tempmail.EnvFile.Persisted.{IsKey, Replaced, persist_refresh_token-Replaced}
use tempmail.Config.{Config, load}
use tempmail.Config.Values.{Env, get, get_int, get_bool, parse_domains, atoi}
use tempmail.Examples.Fixtures.{ascii}

abbrev pub settings : Env
settings key =
    if same key (codes "API_KEY")
    then codes "k3y"
    else if same key (codes "MAIL_DOMAIN")
    then codes "@X.io, example.com"
    else if same key (codes "SMTP_ENABLED")
    then codes "yes"
    else if same key (codes "IMAP_PORT")
    then codes "143"
    else []

abbrev pub loaded : Config
loaded = record {
  domain = codes "x.io";
  domains = codes "x.io" ∷ [];
  listen_addr = codes ":8080";
  db_path = codes "./data/tempmail.db";
  api_key = codes "k3y";
  webhook_secret = [];
  smtp = record { enabled = true; addr = codes ":25"; hostname = codes "x.io" };
  smtp_send = record {
    host = [];
    port = pos 587;
    user = [];
    pass = [];
    start_tls = true;
    from = [];
  };
  imap = record {
    host = [];
    port = pos 143;
    username = [];
    password = [];
    mailbox = codes "INBOX";
    use_tls = true;
    start_tls = false;
    insecure_skip_verify = false;
    poll_interval_sec = pos 1;
    auth_mode = codes "plain";
    client_id = [];
    tenant_id = codes "consumers";
    refresh_token = [];
    token_scope = [];
  };
  graph = record {
    enabled = false;
    client_id = [];
    client_secret = [];
    tenant_id = codes "common";
    refresh_token = [];
    token_scope = [];
    account = [];
    mail_folder = [];
    poll_interval_sec = pos 1;
  };
  default_ttl_hours = pos 24;
  cleanup_interval_min = pos 30;
  message_ttl_hours = pos 24;
  allow_subdomains = false;
}

pub loads : load settings ≡ ok loaded
unfolding load get get_int get_bool parse_domains atoi to_lower trim_space
loads = refl

abbrev env_file : Result Text Text
env_file = ok (codes "A=1\nTOKEN=old")

abbrev env_written : Text
env_written = codes "A=1\nTOKEN=new"

persisted : persist_refresh_token env_file (codes "TOKEN") (codes "new") ≡ ok env_written
unfolding persist_refresh_token replace_line trim_space is_space
persisted = refl

token-IsKey : IsKey (codes "TOKEN")
unfolding is_space
token-IsKey = (refl, omega arith)

persist_refresh_token-Replaced_example :
    Replaced
      (codes "TOKEN")
      (codes "new")
      (split (codes "A=1\nTOKEN=old") 10)
      (split env_written 10)
persist_refresh_token-Replaced_example =
    persist_refresh_token-Replaced (codes "A=1\nTOKEN=old") (codes "TOKEN") (codes "new")
      env_written token-IsKey (omega arith) persisted
