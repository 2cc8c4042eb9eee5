-- ===== src/Mailroom.antt =====
-- What the service promises, with no tables: which addresses have a mailbox, and the messages of each
-- address in the order of their arrival.
pub mod Tables
pub mod Statements
pub mod Contract
pub mod Growth
