-- ===== src/Service/Lossless.antt =====
-- About the service that main puts together: over any run without a deletion no mail is lost.
use tempmail.Prelude.{ℕ, refl, Bool, true, false, Option, none, some, List, [], ◌∷◌, All, inl, inr}
use tempmail.Text.{Text, Unicode}
use tempmail.Models.{Time, Message, Result, ok, err}
use tempmail.Database.{Db, IsRelational}
use tempmail.Recipient.{GraphMessage}
use tempmail.Inbound.{Services, StoreError, store_message, store_graph_message}
use tempmail.Inbound.Routed.{store_message-IsRouted, store_graph_message-IsRouted}
use tempmail.Inbound.Viewed.{
  Delivered, DeliveredOnce, IsMail, IsGraphMail, store_message-Delivered,
  store_graph_message-DeliveredOnce,
}
use tempmail.Access.{Headers}
use tempmail.Sending.{Delivery}
use tempmail.Config.{Config}
use tempmail.Relay.{Outbound, sender_send}
use tempmail.Graph
use tempmail.Imap
use tempmail.Smtp.{Session}
use tempmail.Routing.{IsRouted}
use tempmail.Mailroom.Tables.{View}
use tempmail.Mailroom.Statements.{view}
use tempmail.Mailroom.Growth.{Extends, Extends-eq, Extends-trans, Extends-open_box, Extends-arrival}
use tempmail.Server.Invariant.{IsNumbered, DrawsPlain-IsNumbered}
use tempmail.Server.{App, Request}
use tempmail.Server.Refined.{serve-Obeys}
use tempmail.Server.Kept.{IsGentle, Obeys-Extends, before-IsRouted}
use tempmail.Service.{
  State, Happening, http, mail, tick, answered, serve_http, happen, run_service, wire, session_of,
  run_main, sender_of,
}
use tempmail.Service.Kept.{prepared-Kept, delivered-Kept}
use tempmail.Service.Runs.{IsPlainHappening, happen-IsRouted}

-- A happening that deletes nothing.
abbrev pub IsGentleHappening : Happening → Type 0
IsGentleHappening (http c r now later received) = IsGentle r
IsGentleHappening (mail raw now received) = Unit {0}
IsGentleHappening (tick now later) = ⊥

module _ ⦃u : Unicode⦄ {Conn : Type 0} (d : Db Conn) (laws : IsRelational d) (sv : Services) where
  Delivered-Extends :
      (P : Message → Type 0) (v : View) (r : Result StoreError Message) (w : View)
      → Delivered d laws sv P v r w
      → Extends v w
  Delivered-Extends P v (ok m) w (_, e) = Extends-arrival m m.to v w e
  Delivered-Extends P v (err x) w (inl e) = Extends-eq v w e
  Delivered-Extends P v (err x) w (inr (a, e)) = Extends-open_box a v w e

  DeliveredOnce-Extends :
      (P : Message → Type 0) (v : View) (r : Result StoreError (Option Message)) (w : View)
      → DeliveredOnce d laws sv P v r w
      → Extends v w
  DeliveredOnce-Extends P v (ok (some m)) w h = Delivered-Extends P v (ok m) w h
  DeliveredOnce-Extends P v (ok none) w e = Extends-eq v w e
  DeliveredOnce-Extends P v (err x) w h = Delivered-Extends P v (err x) w h

  -- a database that is routed and has lost nothing of an earlier one
  abbrev Grown : Conn → Conn → Type 0
  Grown s c = IsRouted d c × Extends (view d s) (view d c)

  store_message-Grown :
      (s : Conn) (domains : List Text) (raw : Text) (now received : Time) (c : Conn)
      → Grown s c
      → Grown s (store_message d sv domains raw now received c).1
  store_message-Grown s domains raw now received c (k, e) = (
    store_message-IsRouted d laws sv domains raw now received c k,
    Extends-trans _ _ _ e (
        Delivered-Extends (IsMail d laws sv domains raw received) (view d c) _ _
          (store_message-Delivered d laws sv domains raw now received c)),
  )

  store_graph_message-Grown :
      (s : Conn) (domains : List Text) (gm : GraphMessage) (now received : Time) (c : Conn)
      → Grown s c
      → Grown s (store_graph_message d sv domains gm now received c).1
  store_graph_message-Grown s domains gm now received c (k, e) = (
    store_graph_message-IsRouted d laws sv domains gm now received c k,
    Extends-trans _ _ _ e (
        DeliveredOnce-Extends (IsGraphMail d laws sv domains gm received) (view d c) _ _
          (store_graph_message-DeliveredOnce d laws sv domains gm now received c)),
  )

  module _ {S : Type 0} (remote : Graph.Remote) (client : Imap.Client S) (rounds : ℕ) where
    module _ (app : App) (session : Option Session) (deliver : Delivery → Option Text) where
      answered-Extends :
          (c : Headers) (r : Request) (later received : Time) (st : State S Conn)
          (p : Bool × State S Conn)
          → IsNumbered r
          → IsGentle r
          → IsRouted d st.conn
          → Grown st.conn p.1.conn
          → Extends (view d st.conn) (
              view d
                (answered d sv remote client app session deliver rounds c r later received st
                  p).1.conn)
      unfolding answered
      answered-Extends c r later received st (true, t) numbered gentle h (k, e) =
          Obeys-Extends app d laws sv deliver r c (λ s. t.conn) later received st.conn _ gentle e
            (serve-Obeys app d laws sv deliver c r (λ s. t.conn) later received st.conn numbered
              (before-IsRouted app d laws sv deliver r (λ s. t.conn) st.conn h k))
      answered-Extends c r later received st (false, t) numbered gentle h (k, e) = e

      happen-Extends :
          (e : Happening) (st : State S Conn)
          → IsPlainHappening e
          → IsGentleHappening e
          → IsRouted d st.conn
          → Extends
              (view d st.conn)
              (view d (happen d sv remote client app session deliver rounds e st).conn)
      unfolding happen serve_http
      happen-Extends (http c r now later received) st plain gentle h =
          answered-Extends c r later received st _ (DrawsPlain-IsNumbered r plain) gentle h (
            prepared-Kept d sv remote client app session deliver rounds (Grown st.conn)
              (store_message-Grown st.conn) (store_graph_message-Grown st.conn) now later _ st
              (h, Extends-eq _ _ refl))
      happen-Extends (mail raw now received) st plain gentle h =
          (delivered-Kept d sv remote client app session deliver rounds (Grown st.conn)
            (store_message-Grown st.conn) (store_graph_message-Grown st.conn) session raw now
            received st (h, Extends-eq _ _ refl)).1
      happen-Extends (tick now later) st plain gentle h = absurd gentle

      run_service-Extends :
          (events : List Happening) (st : State S Conn)
          → All IsPlainHappening events
          → All IsGentleHappening events
          → IsRouted d st.conn
          → Extends
              (view d st.conn)
              (view d (run_service d sv remote client app session deliver rounds events st).conn)
      unfolding run_service
      run_service-Extends [] st plain gentle h = Extends-eq _ _ refl
      run_service-Extends (e ∷ events) st plain gentle h =
          Extends-trans _ _ _ (happen-Extends e st plain.0 gentle.0 h) (
            run_service-Extends events (happen d sv remote client app session deliver rounds e st)
              plain.1 gentle.1
              (happen-IsRouted d laws sv remote client rounds app session deliver e st plain.0 h))

    -- In a database that meets IsRelational and whose tables are routed, the service as main puts it
    -- together for any configuration loses no mail while no deletion is asked for and the clean-up does not
    -- tick: every address that was open is open, and each address has the messages it had, in their order
    -- and before any others, whatever mail comes in, whatever the inbox answers and whichever statement
    -- fails. The identifiers that requests draw hold no `@`, and requests name messages by numbers.
    pub run_main-Extends :
        (out : Outbound) (version : Text) (cfg : Config) (events : List Happening) (s : S)
        (c : Conn)
        → All IsPlainHappening events
        → All IsGentleHappening events
        → IsRouted d c
        → Extends
            (view d c)
            (view d (run_main d sv remote client out rounds version cfg events s c).conn)
    unfolding run_main
    run_main-Extends out version cfg events s c plain gentle h =
        run_service-Extends (wire version cfg) (session_of cfg) (sender_send out (sender_of cfg))
          events _ plain gentle h
