-- ===== src/Routing.antt =====
-- The invariant of the two tables between any two requests: every message lies in a mailbox with
-- the address that it was sent to, a mailbox is named by its local part, and no two mailboxes
-- share an identifier or an address.
mod Tables
pub mod Statements
pub use Tables.{Distinct, Houses, Routed}
use tempmail.Database.{Db}

abbrev pub IsRouted : {Conn : Type 0} → Db Conn → Conn → Type 0
IsRouted d s = Routed (d.mailboxes s) (d.messages s)
