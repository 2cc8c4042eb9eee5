-- ===== src/Config.antt =====
-- config/config.go: the configuration that is read from the environment. `env` is the environment
-- after godotenv.Overload, where a variable that is not set is empty.
mod Records
pub mod Valid
pub mod Values
use tempmail.Prelude.{
  ℕ, Bool, true, false, not, ◌&&◌, ◌||◌, Option, none, some, List, [], ◌∷◌, is_empty, if◌then◌else◌,
}
use tempmail.Prelude.Int.{ℤ, pos}
use tempmail.Text.{Text, Unicode, codes, same, contains, to_lower}
use tempmail.Models.{Result, ok, err, ◌>>=◌}
pub use Records.{ImapConfig, GraphConfig, SmtpConfig, SmtpSendConfig, Config, Preset}
use Values.{
  Env, get, get_int, get_bool, parse_domains, ConfigError, api_key_required, domain_required,
  unknown_provider, graph_credentials_required, graph_account_required, imap_host_required,
  oauth_credentials_required, imap_login_required,
}

abbrev tls_preset : Text → Preset
tls_preset host = record { host = host; port = pos 993; use_tls = true; start_tls = false }

-- knownIMAPProviders
known_imap_providers : Text → Option Preset
known_imap_providers p =
    if same p (codes "firstmail")
    then some (tls_preset (codes "imap.firstmail.ltd"))
    else if same p (codes "gmail")
    then some (tls_preset (codes "imap.gmail.com"))
    else if same p (codes "outlook")
    then some (tls_preset (codes "outlook.office365.com"))
    else none

module _ ⦃u : Unicode⦄ (env : Env) where
  imap_base : ImapConfig
  imap_base = record {
    host = get env (codes "IMAP_HOST") [];
    port = pos 993;
    username = get env (codes "IMAP_USER") [];
    password = get env (codes "IMAP_PASS") [];
    mailbox = get env (codes "IMAP_MAILBOX") (codes "INBOX");
    use_tls = get_bool env (codes "IMAP_TLS") true;
    start_tls = get_bool env (codes "IMAP_STARTTLS") false;
    insecure_skip_verify = get_bool env (codes "IMAP_TLS_INSECURE") false;
    poll_interval_sec = pos 1;
    auth_mode = to_lower (get env (codes "IMAP_AUTH_MODE") (codes "plain"));
    client_id = get env (codes "IMAP_CLIENT_ID") [];
    tenant_id = get env (codes "IMAP_TENANT_ID") (codes "consumers");
    refresh_token = get env (codes "IMAP_REFRESH_TOKEN") [];
    token_scope = get env (codes "IMAP_TOKEN_SCOPE") [];
  }

  graph_base : GraphConfig
  graph_base = record {
    enabled =
        same (get env (codes "GRAPH_ENABLED") []) (codes "true")
        || get_bool env (codes "GRAPH_ENABLED") false;
    client_id = get env (codes "GRAPH_CLIENT_ID") [];
    client_secret = get env (codes "GRAPH_CLIENT_SECRET") [];
    tenant_id = get env (codes "GRAPH_TENANT_ID") (codes "common");
    refresh_token = get env (codes "GRAPH_REFRESH_TOKEN") [];
    token_scope = get env (codes "GRAPH_TOKEN_SCOPE") [];
    account = get env (codes "GRAPH_ACCOUNT") [];
    mail_folder = get env (codes "GRAPH_MAIL_FOLDER") [];
    poll_interval_sec = pos 1;
  }

  smtp_base : SmtpConfig
  smtp_base = record {
    enabled = get_bool env (codes "SMTP_ENABLED") false;
    addr = get env (codes "SMTP_ADDR") (codes ":25");
    hostname = get env (codes "SMTP_HOSTNAME") [];
  }

  smtp_send_base : SmtpSendConfig
  smtp_send_base = record {
    host = get env (codes "SMTP_SEND_HOST") [];
    port = pos 587;
    user = get env (codes "SMTP_SEND_USER") [];
    pass = get env (codes "SMTP_SEND_PASS") [];
    start_tls = get_bool env (codes "SMTP_SEND_STARTTLS") true;
    from = get env (codes "SMTP_SEND_FROM") [];
  }

  -- the configuration before the presets, the integers and the checks
  base : Config
  unfolding imap_base graph_base smtp_base smtp_send_base
  base = record {
    domain = [];
    domains = parse_domains (get env (codes "MAIL_DOMAIN") (codes "example.com"));
    listen_addr = get env (codes "LISTEN_ADDR") (codes ":8080");
    db_path = get env (codes "DB_PATH") (codes "./data/tempmail.db");
    api_key = get env (codes "API_KEY") [];
    webhook_secret = get env (codes "WEBHOOK_SECRET") [];
    smtp = smtp_base;
    smtp_send = smtp_send_base;
    imap = imap_base;
    graph = graph_base;
    default_ttl_hours = pos 24;
    cleanup_interval_min = pos 30;
    message_ttl_hours = pos 24;
    allow_subdomains = get_bool env (codes "SUBDOMAIN_ENABLED") false;
  }

  is_unset : Text → Bool
  is_unset key = is_empty (get env key [])

  apply_preset : ImapConfig → Preset → ImapConfig
  unfolding is_unset
  apply_preset c preset = record c {
    host = if is_empty c.host then preset.host else c.host;
    port = if is_unset (codes "IMAP_PORT") then preset.port else c.port;
    use_tls = if is_unset (codes "IMAP_TLS") then preset.use_tls else c.use_tls;
    start_tls = if is_unset (codes "IMAP_STARTTLS") then preset.start_tls else c.start_tls;
    auth_mode = if is_empty c.auth_mode then codes "plain" else c.auth_mode;
  }

  with_provider : Config → Text → Result ConfigError Config
  unfolding apply_preset known_imap_providers
  with_provider cfg provider =
      if is_empty provider then ok cfg else elim (known_imap_providers provider) [
        | some preset ↦ ok (record cfg { imap = apply_preset cfg.imap preset })
        | none ↦ err (unknown_provider provider)
      ]

  -- the seven integers, in order
  with_integers : Config → Result ConfigError Config
  with_integers cfg = do
    ttl ← get_int env (codes "DEFAULT_TTL_HOURS") cfg.default_ttl_hours
    interval ← get_int env (codes "CLEANUP_INTERVAL_MIN") cfg.cleanup_interval_min
    imap_port ← get_int env (codes "IMAP_PORT") cfg.imap.port
    imap_poll ← get_int env (codes "IMAP_POLL_INTERVAL_SEC") cfg.imap.poll_interval_sec
    graph_poll ← get_int env (codes "GRAPH_POLL_INTERVAL_SEC") cfg.graph.poll_interval_sec
    send_port ← get_int env (codes "SMTP_SEND_PORT") cfg.smtp_send.port
    message_ttl ← get_int env (codes "MESSAGE_TTL_HOURS") cfg.message_ttl_hours
    ok (record cfg {
      default_ttl_hours = ttl;
      cleanup_interval_min = interval;
      imap = record cfg.imap { port = imap_port; poll_interval_sec = imap_poll };
      graph = record cfg.graph { poll_interval_sec = graph_poll };
      smtp_send = record cfg.smtp_send { port = send_port };
      message_ttl_hours = message_ttl;
    })

check_graph : Config → Result ConfigError Config
check_graph cfg =
    if is_empty cfg.graph.client_id || is_empty cfg.graph.refresh_token
    then err graph_credentials_required
    else if is_empty cfg.graph.account
    then err graph_account_required
    else ok cfg

check_login : Config → Result ConfigError Config
check_login cfg =
    if same cfg.imap.auth_mode (codes "oauth2")
    then if is_empty cfg.imap.client_id || is_empty cfg.imap.refresh_token
      then err oauth_credentials_required
      else ok cfg
    else if is_empty cfg.imap.username || is_empty cfg.imap.password
    then err imap_login_required
    else ok cfg

check_imap : Config → Result ConfigError Config
unfolding check_login
check_imap cfg =
    if is_empty cfg.imap.host
    then if is_empty cfg.webhook_secret && not cfg.smtp.enabled
      then err imap_host_required
      else ok cfg
    else check_login cfg

check_sources : Config → Result ConfigError Config
unfolding check_graph check_imap
check_sources cfg =
    if cfg.smtp.enabled && (not cfg.graph.enabled && is_empty cfg.imap.host)
    then ok cfg
    else if cfg.graph.enabled
    then check_graph cfg
    else check_imap cfg

-- the server greets by the primary domain if it has no name of its own
default_hostname : Config → Config
default_hostname cfg = record cfg {
  smtp =
      if cfg.smtp.enabled && is_empty cfg.smtp.hostname
      then record cfg.smtp { hostname = cfg.domain }
      else cfg.smtp;
}

check_domains : List Text → Config → Result ConfigError Config
unfolding check_sources default_hostname
check_domains [] cfg = err domain_required
check_domains (d ∷ rest) cfg = check_sources (default_hostname (record cfg { domain = d }))

validate : Config → Result ConfigError Config
unfolding check_domains
validate cfg = if is_empty cfg.api_key then err api_key_required else check_domains cfg.domains cfg

-- Load
unfoldable pub load : ⦃u : Unicode⦄ → Env → Result ConfigError Config
unfolding base with_provider with_integers validate
load env = do
  preset ← with_provider env (base env) (to_lower (get env (codes "IMAP_PROVIDER") []))
  cfg ← with_integers env preset
  validate cfg
