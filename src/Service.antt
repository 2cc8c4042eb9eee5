-- ===== src/Service.antt =====
-- main.go: the parts as main puts them together for a configuration, and the runs of the whole service.
-- Its requests are taken one after another; a request that reads mail fetches it first, and mail comes in
-- over SMTP beside them.
pub mod Kept
pub mod Runs
pub mod Lossless
use tempmail.Prelude.{
  ℕ, Bool, true, false, not, Option, none, some, List, [], ◌∷◌, ◌^◌, is_empty, if◌then◌else◌,
}
use tempmail.Prelude.Int.{ℤ, pos}
use tempmail.Text.{Text, Unicode}
use tempmail.Models.{Time, zero_time, Result, ok, err}
use tempmail.Database.{Db}
use tempmail.Inbound.{Services}
use tempmail.Http.{Response}
use tempmail.Access.{Headers, api_key_auth}
use tempmail.Sending.{Delivery}
use tempmail.Config.{Config}
use tempmail.Relay.{Sender, new_sender, Outbound, sender_send}
use tempmail.Graph
use tempmail.Imap
use tempmail.Smtp.{Session, SmtpReply, new_session, receive_data}
use tempmail.Ingest.{Err, OnDemand, Entry, wait, start, enter, finish}
use tempmail.Server.{
  App, Management, get_mailbox, list_messages, get_message, Request, manage, serve, cleanup_tick,
}

-- the poller of the inbox that mail is fetched from
pub data Fetcher : Type 0 where
  graph : Graph.Poller → Fetcher
  imap : Imap.Poller → Fetcher

-- the handlers of main
unfoldable pub wire : Text → Config → App
wire version cfg = record {
  version = version;
  api_key = cfg.api_key;
  webhook_secret = cfg.webhook_secret;
  domains = cfg.domains;
  email = record {
    domain = cfg.domain;
    domains = cfg.domains;
    ttl_hours = cfg.default_ttl_hours;
    allow_subdomains = cfg.allow_subdomains;
  };
  message = record { domains = cfg.domains; allow_subdomains = cfg.allow_subdomains };
  send = record { domains = cfg.domains; default_from = cfg.smtp_send.from };
  message_ttl_hours = cfg.message_ttl_hours;
}

-- a token that is not there yet
abbrev no_token : Text → Graph.Token
no_token refresh = record { access_token = []; token_expiry = zero_time; refresh_token = refresh }

graph_poller : Config → Graph.Poller
graph_poller cfg = record { token = no_token cfg.graph.refresh_token; since = zero_time }

imap_poller : Config → Imap.Poller
imap_poller cfg = record {
  host = cfg.imap.host;
  port = cfg.imap.port;
  use_tls = cfg.imap.use_tls;
  start_tls = cfg.imap.start_tls;
  auth_mode = cfg.imap.auth_mode;
  username = cfg.imap.username;
  password = cfg.imap.password;
  mailbox = cfg.imap.mailbox;
  token = no_token cfg.imap.refresh_token;
}

-- Graph takes priority over IMAP; with neither there is no ingestion
unfoldable pub fetcher_of : Config → Option Fetcher
unfolding graph_poller imap_poller
fetcher_of cfg =
    if cfg.graph.enabled
    then some (graph (graph_poller cfg))
    else if not (is_empty cfg.imap.host)
    then some (imap (imap_poller cfg))
    else none

-- time.Second
abbrev min_interval : ℤ
min_interval = pos (10 ^ 9)

unfoldable pub demand_of : Config → Option (Fetcher × OnDemand)
unfolding fetcher_of
demand_of cfg = elim (fetcher_of cfg) [ some f ↦ some (f, start min_interval) | none ↦ none ]

-- the sessions of the built-in SMTP server, if it is enabled
unfoldable pub session_of : ⦃u : Unicode⦄ → Config → Option Session
session_of cfg =
    if cfg.smtp.enabled then some (new_session cfg.domains cfg.allow_subdomains) else none

-- the state of the service: the database, the relay inbox, and the ingestion if there is one
pub record State (S Conn : Type 0) : Type 0 where
  pub conn : Conn
  pub server : S
  pub demand : Option (Fetcher × OnDemand)

-- what comes: a request, mail over SMTP, or a tick of the clean-up, each with its readings of the clock
pub data Happening : Type 0 where
  http : Headers → Request → Time → Time → Time → Happening
  mail : Result Text Text → Time → Time → Happening
  tick : Time → Time → Happening

-- the handlers that call SyncContext
abbrev pub reads_mail : Management → Bool
reads_mail (get_mailbox address) = true
reads_mail (list_messages address) = true
reads_mail (get_message id) = true
reads_mail _ = false

-- an error, or nil
abbrev outcome : Result Text (Unit {0}) → Err
outcome (ok _) = none
outcome (err e) = some e

module _ ⦃u : Unicode⦄ {S Conn : Type 0} (d : Db Conn) (sv : Services) (remote : Graph.Remote)
    (client : Imap.Client S) (app : App) (session : Option Session)
    (deliver : Delivery → Option Text) (rounds : ℕ) where
  -- FetchOnce of either poller, whose rounds read one instant here; `none` is a fetch that has not ended after so many rounds
  run_fetch : Time → Fetcher → S → Conn → Option Err × Fetcher × S × Conn
  run_fetch now (graph p) s c =
      let (r, p', c') = Graph.fetch_once d sv app.domains remote rounds (λ k. now) p c in
      (elim r [ some x ↦ some (outcome x) | none ↦ none ], graph p', s, c')
  run_fetch now (imap p) s c =
      let (r, p', s', c') = Imap.fetch_once client d sv app.domains rounds (λ k. now) p s c in
      (r, imap p', s', c')

  fetched : ℕ → Time → OnDemand → Option Err × Fetcher × S × Conn → Bool × State S Conn
  fetched n later o (some e, f, s, c) =
      (true, record { conn = c; server = s; demand = some (f, finish n e later o) })
  fetched n later o (none, f, s, c) = (false, record { conn = c; server = s; demand = some (f, o) })

  -- a caller who starts a fetch waits for its end, and one who joins a fetch that has not ended waits still
  entered : Time → Fetcher → S → Conn → Entry × OnDemand → Option ℕ → Bool × State S Conn
  unfolding run_fetch fetched
  entered later f s c (wait n, o) none = fetched n later o (run_fetch later f s c)
  entered later f s c (wait n, o) (some m) =
      (false, record { conn = c; server = s; demand = some (f, o) })
  entered later f s c (_, o) inflight =
      (true, record { conn = c; server = s; demand = some (f, o) })

  -- SyncContext of one caller at a time; `false` is a caller who waits still
  sync_context : Time → Time → Option (Fetcher × OnDemand) → S → Conn → Bool × State S Conn
  unfolding entered
  sync_context now later none s c = (true, record { conn = c; server = s; demand = none })
  sync_context now later (some (f, o)) s c = entered later f s c (enter none now o) o.inflight

  awaits : Headers → Request → Bool
  awaits c (manage m) = elim (api_key_auth app.api_key c) [ none ↦ reads_mail m | some r ↦ false ]
  awaits c _ = false

  pub prepared : Time → Time → Bool → State S Conn → Bool × State S Conn
  unfolding sync_context
  prepared now later true st = sync_context now later st.demand st.server st.conn
  prepared now later false st = (true, st)

  -- the answer of a request, once the ingestion has ended that it waits for
  answered :
      Headers
      → Request
      → Time
      → Time
      → State S Conn
      → Bool × State S Conn
      → Option Response × State S Conn
  answered c r now received st (true, t) =
      let (resp, conn) = serve d sv app deliver c r (λ s. t.conn) now received st.conn in
      (some resp, record t { conn = conn })
  answered c r now received st (false, t) = (none, t)

  unfoldable pub serve_http :
      Headers → Request → Time → Time → Time → State S Conn → Option Response × State S Conn
  unfolding awaits prepared answered
  serve_http c r now later received st =
      answered c r later received st (prepared now later (awaits c r) st)

  -- mail reaches the service over SMTP if it listens
  pub delivered : Option Session → Result Text Text → Time → Time → State S Conn → State S Conn
  delivered none raw now received st = st
  delivered (some s) raw now received st = record st {
    conn = (receive_data d sv raw now received s st.conn).1;
  }

  unfoldable pub happen : Happening → State S Conn → State S Conn
  unfolding serve_http delivered
  happen (http c r now later received) st = (serve_http c r now later received st).1
  happen (mail raw now received) st = delivered session raw now received st
  happen (tick now later) st = record st { conn = cleanup_tick d sv app deliver now later st.conn }

  unfoldable pub run_service : List Happening → State S Conn → State S Conn
  unfolding happen
  run_service [] st = st
  run_service (e ∷ events) st = run_service events (happen e st)

unfoldable pub sender_of : ⦃u : Unicode⦄ → Config → Sender
sender_of cfg = let c = cfg.smtp_send in new_sender c.host c.port c.user c.pass c.start_tls

-- main for a configuration, from a database and a relay inbox
unfoldable pub run_main :
    ⦃u : Unicode⦄
    → {S Conn : Type 0} → Db Conn
    → Services
    → Graph.Remote
    → Imap.Client S
    → Outbound
    → ℕ
    → Text
    → Config
    → List Happening
    → S
    → Conn
    → State S Conn
unfolding run_service wire session_of demand_of sender_of
run_main d sv remote client out rounds version cfg events s c =
    run_service d sv remote client (wire version cfg) (session_of cfg)
      (sender_send out (sender_of cfg)) rounds events
      (record { conn = c; server = s; demand = demand_of cfg })
