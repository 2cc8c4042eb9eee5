-- ===== src/Inbound.antt =====
-- handlers/store.go and handlers/graph_store.go: a message is filed under the mailbox of its
-- recipient, which is created if it is not there.
pub mod Routed
pub mod Viewed
pub mod Filed
pub mod Once
pub mod Traffic
use tempmail.Prelude.{Bool, false, Option, none, some, List, [], ltb, take, is_empty, if◌then◌else◌}
use tempmail.Text.{Text, Unicode, codes, index, trim_space}
use tempmail.Models.{Time, zero_time, Mailbox, Message, Result, ok, err}
use tempmail.Database.{Db, Fault, not_found, failed}
use tempmail.Recipient.{
  Envelope, GraphMessage, find_recipient, find_graph_recipient, split_graph_body,
}

-- the errors of StoreMessage: of enmime, ErrNotForOurDomain, and of the database
pub data StoreError : Type 0 where
  bad_mime : Text → StoreError
  not_for_our_domain : StoreError
  database : Fault → StoreError

-- the part of an address before its first `@`
abbrev pub local_part : Text → Text
local_part a = elim (index a b'@') [ none ↦ a | some i ↦ take i a ]

-- What the code calls outside this repository, or reads from its surroundings.
pub record Services : Type 0 where
  -- enmime.ReadEnvelope
  pub read_envelope : Text → Result Text Envelope
  -- AddDate(1, 0, 0) in the time zone of the server
  pub next_year : Time → Time
  -- time.Parse(time.RFC3339, _)
  pub parse_time : Text → Option Time

-- a mailbox before the database fills in its identifier and creation time
abbrev pub new_mailbox : Text → Text → Time → Mailbox
new_mailbox address name expires = record {
  id = 0;
  address = address;
  name = name;
  created_at = zero_time;
  expires_at = expires;
}

module _ ⦃u : Unicode⦄ {Conn : Type 0} (d : Db Conn) (sv : Services) where
  abbrev pub auto_mailbox : Text → Time → Mailbox
  auto_mailbox to now = new_mailbox to (local_part to) (sv.next_year now)

  -- `db.First`, and `db.Create` if there is no such row
  pub found_or_create : Text → Time → Conn → Result Fault Mailbox → Result Fault Mailbox × Conn
  found_or_create to now s (ok mb) = (ok mb, s)
  found_or_create to now s (err not_found) = d.create_mailbox (auto_mailbox to now) s
  found_or_create to now s (err (failed e)) = (err (failed e), s)

  unfoldable pub find_or_create : Text → Time → Conn → Result Fault Mailbox × Conn
  unfolding found_or_create
  find_or_create to now s = found_or_create to now s (d.first_mailbox to s)

  pub filed : Result Fault Message → Result StoreError Message
  filed (ok m) = ok m
  filed (err e) = err (database e)

  -- `db.Create(msg)` under the mailbox, if there is one
  file_under : (Mailbox → Message) → Result Fault Mailbox → Conn → Result StoreError Message × Conn
  unfolding filed
  file_under message (err e) s = (err (database e), s)
  file_under message (ok mb) s = let (r, t) = d.create_message (message mb) s in (filed r, t)

  abbrev pub mail_message : Text → Envelope → Text → Time → Mailbox → Message
  mail_message raw env to received mb = record {
    id = 0;
    mailbox_id = mb.id;
    graph_id = [];
    from = trim_space (env.header (codes "From"));
    to = to;
    subject = env.header (codes "Subject");
    text_body = env.text;
    html_body = env.html;
    raw = raw;
    received_at = received;
  }

  store_envelope : Text → Envelope → Text → Time → Time → Conn → Result StoreError Message × Conn
  unfolding find_or_create file_under
  store_envelope raw env to now received s =
      if is_empty to
      then (err not_for_our_domain, s)
      else let (r, t) = find_or_create to now s in file_under (mail_message raw env to received) r t

  store_read :
      List Text
      → Text
      → Time
      → Time
      → Conn
      → Result Text Envelope
      → Result StoreError Message × Conn
  unfolding store_envelope
  store_read domains raw now received s (err e) = (err (bad_mime e), s)
  store_read domains raw now received s (ok env) =
      store_envelope raw env (find_recipient env domains) now received s

  -- StoreMessage; the two readings of the clock are those of the mailbox and of the message
  unfoldable pub store_message :
      List Text → Text → Time → Time → Conn → Result StoreError Message × Conn
  unfolding store_read
  store_message domains raw now received s =
      store_read domains raw now received s (sv.read_envelope raw)

  -- `count > 0`; an error leaves the count at 0
  pub already_stored : Text → Conn → Bool
  already_stored id s =
      if is_empty id then false else elim (d.count_graph_id id s) [ ok n ↦ ltb 0 n | err e ↦ false ]

  pub graph_received : GraphMessage → Time → Time
  graph_received gm now = elim (sv.parse_time gm.received_at) [ some t ↦ t | none ↦ now ]

  pub graph_message : GraphMessage → Text → Time → Mailbox → Message
  unfolding graph_received
  graph_message gm to now mb =
      let (text, html) = split_graph_body gm.body in
      record {
        id = 0;
        mailbox_id = mb.id;
        graph_id = gm.id;
        from = if is_empty gm.from then [] else trim_space gm.from;
        to = to;
        subject = gm.subject;
        text_body = text;
        html_body = html;
        raw = [];
        received_at = graph_received gm now;
      }

  keep_some : Result StoreError Message → Result StoreError (Option Message)
  keep_some (ok m) = ok (some m)
  keep_some (err e) = err e

  store_graph_to :
      GraphMessage → Text → Time → Time → Conn → Result StoreError (Option Message) × Conn
  unfolding already_stored find_or_create file_under graph_message keep_some
  store_graph_to gm to now received s =
      if is_empty to
      then (err not_for_our_domain, s)
      else if already_stored gm.id s
      then (ok none, s)
      else let (r, t) = find_or_create to now s in
        let (m, t') = file_under (graph_message gm to received) r t in (keep_some m, t')

  -- StoreGraphMessage; `none` is the nil message of a duplicate
  unfoldable pub store_graph_message :
      List Text → GraphMessage → Time → Time → Conn → Result StoreError (Option Message) × Conn
  unfolding store_graph_to
  store_graph_message domains gm now received s =
      store_graph_to gm (find_graph_recipient gm domains) now received s
