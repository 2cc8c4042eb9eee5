-- ===== src/Config/Records.antt =====
-- The records of config/config.go.
use tempmail.Prelude.{Bool, List}
use tempmail.Prelude.Int.{ℤ}
use tempmail.Text.{Text}

pub record ImapConfig : Type 0 where
  pub host : Text
  pub port : ℤ
  pub username : Text
  pub password : Text
  pub mailbox : Text
  pub use_tls : Bool
  pub start_tls : Bool
  pub insecure_skip_verify : Bool
  pub poll_interval_sec : ℤ
  pub auth_mode : Text
  pub client_id : Text
  pub tenant_id : Text
  pub refresh_token : Text
  pub token_scope : Text

pub record GraphConfig : Type 0 where
  pub enabled : Bool
  pub client_id : Text
  pub client_secret : Text
  pub tenant_id : Text
  pub refresh_token : Text
  pub token_scope : Text
  pub account : Text
  pub mail_folder : Text
  pub poll_interval_sec : ℤ

pub record SmtpConfig : Type 0 where
  pub enabled : Bool
  pub addr : Text
  pub hostname : Text

pub record SmtpSendConfig : Type 0 where
  pub host : Text
  pub port : ℤ
  pub user : Text
  pub pass : Text
  pub start_tls : Bool
  pub from : Text

pub record Config : Type 0 where
  pub domain : Text
  pub domains : List Text
  pub listen_addr : Text
  pub db_path : Text
  pub api_key : Text
  pub webhook_secret : Text
  pub smtp : SmtpConfig
  pub smtp_send : SmtpSendConfig
  pub imap : ImapConfig
  pub graph : GraphConfig
  pub default_ttl_hours : ℤ
  pub cleanup_interval_min : ℤ
  pub message_ttl_hours : ℤ
  pub allow_subdomains : Bool

pub record Preset : Type 0 where
  pub host : Text
  pub port : ℤ
  pub use_tls : Bool
  pub start_tls : Bool
