-- ===== src/Service/Runs.antt =====
-- About the service that main puts together: the database after any run, with the ingestion, the SMTP
-- server, the API and the clean-up at work.
use tempmail.Prelude.{ℕ, Bool, true, false, Option, List, [], ◌∷◌, All}
use tempmail.Text.{Text, Unicode}
use tempmail.Models.{Time}
use tempmail.Database.{Db, IsRelational}
use tempmail.Inbound.{Services}
use tempmail.Inbound.Routed.{store_message-IsRouted, store_graph_message-IsRouted}
use tempmail.Access.{Headers}
use tempmail.Sending.{Delivery}
use tempmail.Config.{Config}
use tempmail.Relay.{Outbound, sender_send}
use tempmail.Graph
use tempmail.Imap
use tempmail.Smtp.{Session}
use tempmail.Routing.{IsRouted}
use tempmail.Server.{App, Request}
use tempmail.Server.Invariant.{DrawsPlain, serve-IsRouted, cleanup_tick-IsRouted}
use tempmail.Service.{
  State, Happening, http, mail, tick, answered, serve_http, happen, run_service, wire, session_of,
  run_main, sender_of,
}
use tempmail.Service.Kept.{prepared-Kept, delivered-Kept}

-- A request draws a plain identifier, or names a message by a number.
abbrev pub IsPlainHappening : Happening → Type 0
IsPlainHappening (http c r now later received) = DrawsPlain r
IsPlainHappening _ = Unit {0}

module _ ⦃u : Unicode⦄ {S Conn : Type 0} (d : Db Conn) (laws : IsRelational d) (sv : Services)
    (remote : Graph.Remote) (client : Imap.Client S) (rounds : ℕ) where
  module _ (app : App) (session : Option Session) (deliver : Delivery → Option Text) where
    answered-IsRouted :
        (c : Headers) (r : Request) (later received : Time) (st : State S Conn)
        (p : Bool × State S Conn)
        → DrawsPlain r
        → IsRouted d st.conn
        → IsRouted d p.1.conn
        → IsRouted d
            (answered d sv remote client app session deliver rounds c r later received st p).1.conn
    unfolding answered
    answered-IsRouted c r later received st (true, t) plain h k =
        serve-IsRouted d laws sv app deliver (λ s. t.conn) (λ s _. k) c r later received st.conn
          plain h
    answered-IsRouted c r later received st (false, t) plain h k = k

    pub happen-IsRouted :
        (e : Happening) (st : State S Conn)
        → IsPlainHappening e
        → IsRouted d st.conn
        → IsRouted d (happen d sv remote client app session deliver rounds e st).conn
    unfolding happen serve_http
    happen-IsRouted (http c r now later received) st plain h =
        answered-IsRouted c r later received st _ plain h (
          prepared-Kept d sv remote client app session deliver rounds (IsRouted d)
            (store_message-IsRouted d laws sv) (store_graph_message-IsRouted d laws sv) now later _
            st h)
    happen-IsRouted (mail raw now received) st plain h =
        delivered-Kept d sv remote client app session deliver rounds (IsRouted d)
          (store_message-IsRouted d laws sv) (store_graph_message-IsRouted d laws sv) session raw
          now received st h
    happen-IsRouted (tick now later) st plain h =
        cleanup_tick-IsRouted d laws sv app deliver now later st.conn h

    run_service-IsRouted :
        (events : List Happening) (st : State S Conn)
        → All IsPlainHappening events
        → IsRouted d st.conn
        → IsRouted d (run_service d sv remote client app session deliver rounds events st).conn
    unfolding run_service
    run_service-IsRouted [] st plain h = h
    run_service-IsRouted (e ∷ events) st plain h =
        run_service-IsRouted events (happen d sv remote client app session deliver rounds e st)
          plain.1 (happen-IsRouted e st plain.0 h)

  -- In a database that meets IsRelational, the service as main puts it together for any configuration keeps
  -- routed tables routed: over any requests, with valid keys or without and with the fetches that they wait
  -- for, mail over SMTP, and ticks of the clean-up, whatever the inbox answers and whichever statement
  -- fails. The identifiers that requests draw hold no `@`, and requests name messages by numbers.
  pub run_main-IsRouted :
      (out : Outbound) (version : Text) (cfg : Config) (events : List Happening) (s : S) (c : Conn)
      → All IsPlainHappening events
      → IsRouted d c
      → IsRouted d (run_main d sv remote client out rounds version cfg events s c).conn
  unfolding run_main
  run_main-IsRouted out version cfg events s c plain h =
      run_service-IsRouted (wire version cfg) (session_of cfg) (sender_send out (sender_of cfg))
        events _ plain h
