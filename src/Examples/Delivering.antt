-- ===== src/Examples/Delivering.antt =====
-- A direct delivery over two hosts, the first of which does not answer.
use tempmail.Prelude.{◌≡◌, refl, true, false, none, some, List, [], ◌∷◌, All, if◌then◌else◌}
use tempmail.Text.{Text, codes, same, trim_space, to_lower, is_space}
use tempmail.Models.{ok}
use tempmail.Direct.{
  Answers, Network, Group, send_direct, deliver_to_domain, mx_hosts, group_recipients, add_to,
  recipient_domain, smtp_client_send,
}
use tempmail.Direct.Delivered.{Delivered, send_direct-Delivered}
use tempmail.Prelude.Int.{pos}
use tempmail.Http.{accepted, reply}
use tempmail.Sending.{Delivery, prepare, send}
use tempmail.Relay.{RelayNetwork, RelaySender, relayed, Outbound, relay_send, sender_send}
use tempmail.Relay.Accepted.{Arrived, send-Arrived}
use tempmail.Examples.Fixtures.{ascii, letter, send_handler, sources}

abbrev willing : Answers
willing = record {
  dial4 = none;
  dial6 = none;
  greet = none;
  offers_auth = false;
  auth = none;
  mail = λ from. if same from (codes "Team <no-reply@x.io>") then none else some (codes "denied");
  rcpt = λ r. none;
  start_data = none;
  write = λ msg. none;
  end_data = none;
  quit = none;
}

abbrev silent : Answers
silent = record willing { dial4 = some (codes "timeout"); dial6 = some (codes "no route") }

abbrev network : Network Group
network = record {
  look_up_mx = λ domain. ok (codes "mx1.y.org." ∷ codes "mx2.y.org." ∷ []);
  answers = λ domain n host. if same host (codes "mx1.y.org") then silent else willing;
  order = λ groups. groups;
}

abbrev recipients : List Text
recipients = codes " Ann@Y.org" ∷ codes "bob@y.org" ∷ codes "eve@z.org" ∷ []

abbrev groups : List Group
groups =
    record { domain = codes "y.org"; rcpts = codes "Ann@Y.org" ∷ codes "bob@y.org" ∷ [] }
    ∷ record { domain = codes "z.org"; rcpts = codes "eve@z.org" ∷ [] }
    ∷ []

grouped : group_recipients [] recipients ≡ ok groups
unfolding group_recipients add_to recipient_domain trim_space to_lower is_space
grouped = refl

sent : send_direct (codes "Team <no-reply@x.io>") (codes "hi") network recipients ≡ none
unfolding send_direct group_recipients add_to recipient_domain trim_space to_lower is_space
    deliver_to_domain mx_hosts smtp_client_send
sent = refl

send_direct-Delivered_example :
    All
      (λ raw. Delivered (codes "Team <no-reply@x.io>") (codes "hi") network (trim_space raw))
      recipients
send_direct-Delivered_example =
    send_direct-Delivered (codes "Team <no-reply@x.io>") (codes "hi") network (λ g gs found. found)
      recipients sent

-- a relay that offers STARTTLS
abbrev relay : RelayNetwork
relay = record {
  dial_tls = λ host port. some (codes "refused");
  dial = λ host port. none;
  answers = λ host port auth. record {
    offers_start_tls = true;
    start_tls = none;
    session = λ over_tls. willing;
  };
  send_mail = λ host port auth from to msg. some (codes "refused");
}

abbrev pub outbound : Outbound
outbound = record { relay = relay; hosts = network }

abbrev smart_host : RelaySender
smart_host = record {
  host = codes "smtp.y.org";
  port = pos 587;
  user = codes "relay";
  pass = codes "pass";
  start_tls = true;
}

posted :
    send send_handler sources (sender_send outbound (relayed smart_host)) (ok letter)
    ≡ reply 200 (accepted (codes "ann@y.org" ∷ []))
unfolding send sender_send relay_send smtp_client_send trim_space tempmail.Sending.domain_allowed
    to_lower tempmail.Compose.build_message
posted = refl

send-Arrived_example :
    (call : Delivery) × (prepare send_handler sources (ok letter) ≡ ok call)
    × (call.to ≡ codes "ann@y.org" ∷ [])
    × Arrived outbound (relayed smart_host) call
send-Arrived_example =
    send-Arrived outbound (λ g gs found. found) send_handler sources (relayed smart_host)
      (ok letter) (codes "ann@y.org" ∷ []) posted
