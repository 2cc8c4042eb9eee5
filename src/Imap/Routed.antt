-- ===== src/Imap/Routed.antt =====
-- About imap/poller.go: the tables after a fetch.
use tempmail.Prelude.{ℕ, List}
use tempmail.Text.{Text, Unicode}
use tempmail.Models.{Time}
use tempmail.Database.{Db, IsRelational}
use tempmail.Inbound.{Services}
use tempmail.Inbound.Routed.{store_message-IsRouted}
use tempmail.Routing.{IsRouted}
use tempmail.Imap.{Client, Poller, fetch_once}
use tempmail.Imap.Kept.{fetch_once-Kept_imap}

module _ {S : Type 0} (client : Client S) ⦃u : Unicode⦄ {Conn : Type 0} (d : Db Conn)
    (laws : IsRelational d) (sv : Services) (domains : List Text) where
  -- In a database that meets IsRelational, a fetch over IMAP leaves routed tables routed, after any
  -- number of rounds and whatever the server and the database answer.
  pub fetch_once-IsRouted_imap :
      (rounds : ℕ) (clock : ℕ → Time) (p : Poller) (s : S) (c : Conn)
      → IsRouted d c
      → IsRouted d (fetch_once client d sv domains rounds clock p s c).3
  fetch_once-IsRouted_imap =
      fetch_once-Kept_imap client d sv domains (IsRouted d)
        (store_message-IsRouted d laws sv domains)
