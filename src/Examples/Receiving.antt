-- ===== src/Examples/Receiving.antt =====
-- Mail that comes in.
use tempmail.Prelude.{none, some, ◌^◌, arith, ◌≡◌, ◌≢◌, refl, false, [], ◌∷◌, Any}
use tempmail.Prelude.Int.{pos}
use tempmail.Text.{Text, codes, to_lower, trim_space}
use tempmail.Models.{Message, Result, ok}
use tempmail.Database.Memory.{memory}
use tempmail.Database.Memory.Laws.{memory-IsRelational}
use tempmail.Recipient.{find_graph_recipient, extract_addresses, recipient_headers, find_recipient}
use tempmail.Recipient.Sound.{IsOn, Stands, find_recipient_sound}
use tempmail.Inbound.{store_message, store_graph_message}
use tempmail.Inbound.Once.{store_graph_message-once}
use tempmail.Inbound.Filed.{Handles, store_message-Handles}
use tempmail.Smtp.{Session, accept, rcpt}
use tempmail.Examples.Fixtures.{
  ascii, bob, domains, bob_mail, services, envelope_to, no_tables, graph_mail,
}

store_message-Handles_example :
    Handles memory memory-IsRelational services domains bob_mail
      (pos 2)
      no_tables
      (services.read_envelope bob_mail)
      (store_message memory services domains bob_mail (pos 1) (pos 2) no_tables)
store_message-Handles_example =
    store_message-Handles memory memory-IsRelational services domains bob_mail (pos 1) (pos 2)
      no_tables

found : find_recipient (envelope_to (codes " <BOB@x.io>")) domains ≢ []
unfolding find_recipient to_lower trim_space extract_addresses
found e = cc e

find_recipient_sound_example :
    Any (IsOn (find_recipient (envelope_to (codes " <BOB@x.io>")) domains)) domains
    × Stands domains
        (find_recipient (envelope_to (codes " <BOB@x.io>")) domains)
        (recipient_headers (envelope_to (codes " <BOB@x.io>")))
find_recipient_sound_example =
    find_recipient_sound domains (envelope_to (codes " <BOB@x.io>")) found

abbrev bob_raw : Result Text Text
bob_raw = ok bob_mail

abbrev session : Session
session = record { domains = domains; allow_subdomains = false; from = codes "eve@y.org" }

let_in : rcpt (codes "Bob@x.io") session ≡ accept
unfolding rcpt to_lower trim_space
let_in = refl

listed :
    extract_addresses ((envelope_to (codes "Bob@x.io")).header (codes "To")) ≡ codes "Bob@x.io" ∷ []
unfolding extract_addresses trim_space
listed = refl

-- what graph_mail becomes
abbrev graph_message_stored : Message
graph_message_stored = record {
  id = 1;
  mailbox_id = 1;
  graph_id = codes "AAMk1";
  from = codes "eve@y.org";
  to = bob;
  subject = codes "hi";
  text_body = codes "hi";
  html_body = [];
  raw = [];
  received_at = pos (10 ^ 9);
}

graph_stored :
    (store_graph_message memory services domains graph_mail (pos 1) (pos 2) no_tables).0
    ≡ ok (some graph_message_stored)
unfolding store_graph_message tempmail.Recipient.find_graph_recipient to_lower trim_space
    tempmail.Recipient.split_graph_body
graph_stored = refl

graph_counted :
    memory.count_graph_id
      (codes "AAMk1")
      (store_graph_message memory services domains graph_mail (pos 1) (pos 2) no_tables).1
    ≡ ok 1
unfolding store_graph_message tempmail.Recipient.find_graph_recipient to_lower trim_space
graph_counted = refl

store_graph_message-once_example :
    store_graph_message memory services domains graph_mail
      (pos 3)
      (pos 4)
      (store_graph_message memory services domains graph_mail (pos 1) (pos 2) no_tables).1
    ≡ (
      ok none,
      (store_graph_message memory services domains graph_mail (pos 1) (pos 2) no_tables).1,
    )
store_graph_message-once_example =
    store_graph_message-once memory memory-IsRelational services domains graph_mail (pos 1) (pos 2)
      (pos 3) (pos 4) no_tables graph_message_stored 1 (λ e. ground arith) graph_stored
      graph_counted
