-- ===== src/Inbound/Traffic.antt =====
-- handlers/store.go and handlers/graph_store.go, a statement at a time: messages that are stored at the same time,
-- by sessions of the SMTP server, calls of the webhook and a fetch, between the statements of other requests and
-- of the clean-up, in any order.
pub mod Kept
pub mod Routed
pub mod Race
pub mod Answers
pub mod Served
pub mod Counts
pub mod Unique
use tempmail.Prelude.{ℕ, ◌≡◌, Bool, true, false, Option, none, some, ◌==◌, if◌then◌else◌}
use tempmail.Text.{Text, Unicode}
use tempmail.Models.{Time, Mailbox, Message, Result, ok, err}
use tempmail.Database.{IsNumber, Db, Fault, not_found, failed}
use tempmail.Recipient.{Envelope, GraphMessage}
use tempmail.Inbound.{
  Services, StoreError, database, local_part, auto_mailbox, mail_message, graph_message,
  already_stored, filed,
}

-- a message with its recipient and its readings of the clock
pub data Delivery : Type 0 where
  mail : Text → Envelope → Text → Time → Time → Delivery
  graph : GraphMessage → Text → Time → Time → Delivery

abbrev pub recipient : Delivery → Text
recipient (mail raw env to now received) = to
recipient (graph gm to now received) = to

abbrev pub clock : Delivery → Time
clock (mail raw env to now received) = now
clock (graph gm to now received) = now

-- the statement that comes next, or the end
pub data Progress : Type 0 where
  checking : Progress
  looking : Progress
  creating : Progress
  filing : Mailbox → Progress
  skipped : Progress
  finished : Result StoreError Message → Progress

abbrev pub first_step : Delivery → Progress
first_step (mail raw env to now received) = looking
first_step (graph gm to now received) = checking

-- a statement of another request or of the clean-up that writes
pub data Statement : Type 0 where
  create_box : Mailbox → Statement
  delete_box : Text → Statement
  delete_expired : Time → Statement
  delete_message : Text → Statement
  delete_old : Time → Statement

-- a mailbox that a request creates is named by its local part, and a message that it deletes by a number
abbrev pub IsNamed : Statement → Type 0
IsNamed (create_box mb) = mb.name ≡ local_part mb.address
IsNamed (delete_message id) = (n : ℕ) × IsNumber id n
IsNamed _ = Unit

abbrev pub update : (ℕ → Progress) → ℕ → Progress → ℕ → Progress
update f i x j = if j == i then x else f j

module _ ⦃u : Unicode⦄ {Conn : Type 0} (d : Db Conn) (sv : Services) where
  unfoldable pub message_of : Delivery → Mailbox → Message
  unfolding graph_message
  message_of (mail raw env to now received) mb = mail_message d sv raw env to received mb
  message_of (graph gm to now received) mb = graph_message d sv gm to received mb

  pub repeated : Delivery → Conn → Bool
  repeated (mail raw env to now received) s = false
  repeated (graph gm to now received) s = already_stored d sv gm.id s

  -- after `db.First`
  unfoldable pub looked : Result Fault Mailbox → Progress
  looked (ok mb) = filing mb
  looked (err not_found) = creating
  looked (err (failed e)) = finished (err (database (failed e)))

  -- after `db.Create(&mb)`
  unfoldable pub made : Result Fault Mailbox → Progress
  made (ok mb) = filing mb
  made (err e) = finished (err (database e))

  -- one statement of StoreMessage or StoreGraphMessage
  unfoldable pub advance : Delivery → Progress → Conn → Progress × Conn
  unfolding looked made repeated already_stored filed
  advance job checking s = (if repeated job s then skipped else looking, s)
  advance job looking s = (looked (d.first_mailbox (recipient job) s), s)
  advance job creating s =
      let (r, t) = d.create_mailbox (auto_mailbox d sv (recipient job) (clock job)) s in (made r, t)
  advance job (filing mb) s =
      let (r, t) = d.create_message (message_of job mb) s in (finished (filed d sv r), t)
  advance job skipped s = (skipped, s)
  advance job (finished r) s = (finished r, s)

  unfoldable pub execute : Statement → Conn → Conn
  execute (create_box mb) s = (d.create_mailbox mb s).1
  execute (delete_box a) s = (d.delete_mailboxes a s).1
  execute (delete_expired t) s = (d.delete_expired t s).1
  execute (delete_message id) s = (d.delete_message id s).1
  execute (delete_old t) s = (d.delete_old t s).1

-- The tables, and where each message stands; an index names a message.
pub record Traffic (Conn : Type 0) : Type 0 where
  pub conn : Conn
  pub place : ℕ → Progress

module _ ⦃u : Unicode⦄ {Conn : Type 0} (d : Db Conn) (sv : Services) (jobs : ℕ → Delivery) where
  unfoldable pub stepped : ℕ → Traffic Conn → Traffic Conn
  unfolding advance
  stepped i s =
      let (p, t) = advance d sv (jobs i) (s.place i) s.conn in
      record { conn = t; place = update s.place i p }

  abbrev pub arriving : Conn → Traffic Conn
  arriving c = record { conn = c; place = λ i. first_step (jobs i) }

  pub data Reach (c : Conn) : Traffic Conn → Type 0 where
    here : Reach c (arriving c)
    store : (i : ℕ) {s : Traffic Conn} → Reach c s → Reach c (stepped i s)
    other :
        (q : Statement) {s : Traffic Conn}
        → IsNamed q
        → Reach c s
        → Reach c (record s { conn = execute d sv q s.conn })
