-- ===== src/Service/Kept.antt =====
-- About the service that main puts together: what its runs keep of the database.
use tempmail.Prelude.{ℕ, Bool, true, false, Option, none, some, List}
use tempmail.Text.{Text, Unicode}
use tempmail.Models.{Time, Result, ok, err}
use tempmail.Database.{Db}
use tempmail.Recipient.{GraphMessage}
use tempmail.Inbound.{Services, store_message, store_graph_message}
use tempmail.Sending.{Delivery}
use tempmail.Graph
use tempmail.Graph.Kept.{fetch_once-Kept}
use tempmail.Imap
use tempmail.Imap.Kept.{fetch_once-Kept_imap}
use tempmail.Smtp.{Session, receive_data}
use tempmail.Ingest.{OnDemand, Entry, ended, canceled, recent, wait}
use tempmail.Server.{App}
use tempmail.Service.{
  Fetcher, graph, imap, State, run_fetch, fetched, entered, sync_context, prepared, delivered,
}

module _ ⦃u : Unicode⦄ {S Conn : Type 0} (d : Db Conn) (sv : Services) (remote : Graph.Remote)
    (client : Imap.Client S) (app : App) (session : Option Session)
    (deliver : Delivery → Option Text) (rounds : ℕ) (Q : Conn → Type 0)
    (keeps : (domains : List Text) (raw : Text) (now received : Time) (c : Conn)
      → Q c
      → Q (store_message d sv domains raw now received c).1)
    (keeps_graph : (domains : List Text) (gm : GraphMessage) (now received : Time) (c : Conn)
      → Q c
      → Q (store_graph_message d sv domains gm now received c).1) where
  run_fetch-Kept :
      (now : Time) (f : Fetcher) (s : S) (c : Conn)
      → Q c
      → Q (run_fetch d sv remote client app session deliver rounds now f s c).3
  unfolding run_fetch
  run_fetch-Kept now (graph p) s c h =
      fetch_once-Kept d sv app.domains Q (keeps_graph app.domains) remote rounds (λ k. now) p c h
  run_fetch-Kept now (imap p) s c h =
      fetch_once-Kept_imap client d sv app.domains Q (keeps app.domains) rounds (λ k. now) p s c h

  fetched-Kept :
      (n : ℕ) (later : Time) (o : OnDemand) (r : Option (Option Text)) (f : Fetcher) (s : S)
      (c : Conn)
      → Q c
      → Q (fetched d sv remote client app session deliver rounds n later o (r, f, s, c)).1.conn
  unfolding fetched
  fetched-Kept n later o (some e) f s c h = h
  fetched-Kept n later o none f s c h = h

  entered-Kept :
      (later : Time) (f : Fetcher) (s : S) (c : Conn) (e : Entry) (o : OnDemand) (m : Option ℕ)
      → Q c
      → Q (entered d sv remote client app session deliver rounds later f s c (e, o) m).1.conn
  unfolding entered
  entered-Kept later f s c (wait n) o none h =
      fetched-Kept n later o _ _ _ _ (run_fetch-Kept later f s c h)
  entered-Kept later f s c (wait n) o (some m) h = h
  entered-Kept later f s c (ended x) o m h = h
  entered-Kept later f s c canceled o m h = h
  entered-Kept later f s c (recent x) o m h = h

  sync_context-Kept :
      (now later : Time) (demand : Option (Fetcher × OnDemand)) (s : S) (c : Conn)
      → Q c
      → Q (sync_context d sv remote client app session deliver rounds now later demand s c).1.conn
  unfolding sync_context
  sync_context-Kept now later none s c h = h
  sync_context-Kept now later (some (f, o)) s c h = entered-Kept later f s c _ _ _ h

  -- What storing mail keeps, the wait of a request for the ingestion keeps.
  pub prepared-Kept :
      (now later : Time) (waits : Bool) (st : State S Conn)
      → Q st.conn
      → Q (prepared d sv remote client app session deliver rounds now later waits st).1.conn
  unfolding prepared
  prepared-Kept now later true st h = sync_context-Kept now later st.demand st.server st.conn h
  prepared-Kept now later false st h = h

  pub delivered-Kept :
      (s : Option Session) (raw : Result Text Text) (now received : Time) (st : State S Conn)
      → Q st.conn
      → Q (delivered d sv remote client app session deliver rounds s raw now received st).conn
  unfolding delivered receive_data
  delivered-Kept none raw now received st h = h
  delivered-Kept (some s) (err e) now received st h = h
  delivered-Kept (some s) (ok raw) now received st h = keeps s.domains raw now received st.conn h
