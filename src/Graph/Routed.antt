-- ===== src/Graph/Routed.antt =====
-- About graph/poller.go: the tables after a fetch.
use tempmail.Prelude.{ℕ, List}
use tempmail.Text.{Text, Unicode}
use tempmail.Models.{Time}
use tempmail.Database.{Db, IsRelational}
use tempmail.Inbound.{Services}
use tempmail.Inbound.Routed.{store_graph_message-IsRouted}
use tempmail.Routing.{IsRouted}
use tempmail.Graph.{Remote, Poller, fetch_once}
use tempmail.Graph.Kept.{fetch_once-Kept}

module _ ⦃u : Unicode⦄ {Conn : Type 0} (d : Db Conn) (laws : IsRelational d) (sv : Services)
    (domains : List Text) where
  module _ (remote : Remote) where
    -- In a database that meets IsRelational, a fetch leaves routed tables routed, after any
    -- number of rounds and whatever the endpoints answer.
    pub fetch_once-IsRouted :
        (rounds : ℕ) (clock : ℕ → Time) (p : Poller) (c : Conn)
        → IsRouted d c
        → IsRouted d (fetch_once d sv domains remote rounds clock p c).2
    fetch_once-IsRouted =
        fetch_once-Kept d sv domains (IsRouted d) (store_graph_message-IsRouted d laws sv domains)
          remote
