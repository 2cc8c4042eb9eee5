-- ===== src/Smtp/Listener.antt =====
-- smtp/server.go: Start, with the server that main makes for it. What go-smtp does with the settings is
-- go-smtp's.
use tempmail.Prelude.{
  ℕ, ◌*◌, ◌^◌, ◌≡◌, refl, Bool, true, Bool-cases, inl, inr, Option, none, some, List, map, [],
  if◌then◌else◌,
}
use tempmail.Prelude.Int.{ℤ, pos}
use tempmail.Text.{Text, Unicode, to_lower}
use tempmail.Config.{Config}
use tempmail.Smtp.{Session, new_session}
use tempmail.Service.{session_of}

-- the fields of Server that main sets
pub record SmtpServer : Type 0 where
  pub addr : Text
  pub hostname : Text
  pub domains : List Text
  pub allow_subdomains : Bool

-- the backend
pub record Backend : Type 0 where
  pub domains : List Text
  pub allow_subdomains : Bool

-- the settings of go-smtp's server that Start writes
pub record Settings : Type 0 where
  pub addr : Text
  pub domain : Text
  pub allow_insecure_auth : Bool
  pub max_message_bytes : ℕ
  pub max_recipients : ℕ
  pub read_timeout : ℤ
  pub write_timeout : ℤ

-- the server that main starts, if it is enabled
unfoldable pub server_of : Config → Option SmtpServer
server_of cfg =
    if cfg.smtp.enabled
    then some (record {
      addr = cfg.smtp.addr;
      hostname = cfg.smtp.hostname;
      domains = cfg.domains;
      allow_subdomains = cfg.allow_subdomains;
    })
    else none

unfoldable pub settings : SmtpServer → Settings
settings s = record {
  addr = s.addr;
  domain = s.hostname;
  allow_insecure_auth = true;
  max_message_bytes = 10 * 1024 * 1024;
  max_recipients = 50;
  read_timeout = pos (60 * 10 ^ 9);
  write_timeout = pos (60 * 10 ^ 9);
}

-- what Start returns, for the error of ListenAndServe and whether the context was cancelled
unfoldable pub start_result : Option Text → Bool → Option Text
start_result none cancelled = none
start_result (some e) cancelled = if cancelled then none else some e

module _ ⦃u : Unicode⦄ where
  unfoldable pub backend_of : SmtpServer → Backend
  backend_of s = record { domains = map to_lower s.domains; allow_subdomains = s.allow_subdomains }

  -- NewSession
  unfoldable pub session_for : Backend → Session
  session_for b = record { domains = b.domains; allow_subdomains = b.allow_subdomains; from = [] }

  unfoldable pub sessions_of : Option SmtpServer → Option Session
  sessions_of none = none
  sessions_of (some s) = some (session_for (backend_of s))

  -- The sessions of the service are those that the backend of main's server opens.
  pub session_of_lem : (cfg : Config) → session_of cfg ≡ sessions_of (server_of cfg)
  unfolding session_of server_of sessions_of session_for backend_of new_session
  session_of_lem cfg = elim (Bool-cases cfg.smtp.enabled) [ inl e ↦ rw e refl | inr e ↦ rw e refl ]
