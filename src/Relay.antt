-- ===== src/Relay.antt =====
-- sender/sender.go: the choice of the sender, and delivery through a relay. The context that the code puts
-- before an error (as in "tls dial %s: %w") is left out; an address "host:port" is its two parts.
pub mod Accepted
use tempmail.Prelude.{
  ℕ, Bool, true, false, not, ◌&&◌, Option, none, some, List, ◌==◌, is_empty, if◌then◌else◌,
}
use tempmail.Prelude.Int.{ℤ, pos, negsuc}
use tempmail.Text.{Text, Unicode, trim_space}
use tempmail.Direct.{Answers, and_then, smtp_client_send, Network, Group, send_direct}
use tempmail.Sending.{Delivery}

-- smtp.PlainAuth
pub record Credentials : Type 0 where
  pub user : Text
  pub pass : Text
  pub host : Text

-- What a connection to the relay answers: whether it offers STARTTLS, the error of the upgrade, and the
-- rest of the session, over TLS or in the clear.
pub record RelayAnswers : Type 0 where
  pub offers_start_tls : Bool
  pub start_tls : Option Text
  pub session : Bool → Answers

-- What the program asks of the network for a host and a port; `none` is a nil error.
pub record RelayNetwork : Type 0 where
  pub dial_tls : Text → ℤ → Option Text
  pub dial : Text → ℤ → Option Text
  pub answers : Text → ℤ → Option Credentials → RelayAnswers
  -- smtp.SendMail
  pub send_mail : Text → ℤ → Option Credentials → Text → List Text → Text → Option Text

pub record RelaySender : Type 0 where
  pub host : Text
  pub port : ℤ
  pub user : Text
  pub pass : Text
  pub start_tls : Bool

pub data Sender : Type 0 where
  relayed : RelaySender → Sender
  direct : Sender

unfoldable pub new_sender : ⦃u : Unicode⦄ → Text → ℤ → Text → Text → Bool → Sender
new_sender host port user pass start_tls =
    if not (is_empty (trim_space host))
    then relayed
        (record { host = host; port = port; user = user; pass = pass; start_tls = start_tls })
    else direct

abbrev pub auth_of : RelaySender → Option Credentials
auth_of s =
    if is_empty s.user then none else some (record { user = s.user; pass = s.pass; host = s.host })

abbrev pub has_auth : Option Credentials → Bool
has_auth none = false
has_auth (some c) = true

-- the port of implicit TLS
abbrev pub is_smtps : ℤ → Bool
is_smtps (pos n) = n == 465
is_smtps (negsuc n) = false

module _ (net : RelayNetwork) (s : RelaySender) where
  abbrev pub answers_of : RelayAnswers
  answers_of = net.answers s.host s.port (auth_of s)

  module _ (from msg : Text) where
    send_tls : List Text → Option Text
    send_tls to =
        let a = answers_of.session true in
        and_then (net.dial_tls s.host s.port)
          (and_then a.greet (smtp_client_send from msg a (has_auth (auth_of s)) to))

    -- STARTTLS where it is offered
    upgraded : Bool → List Text → Option Text
    upgraded true to =
        and_then answers_of.start_tls
          (smtp_client_send from msg (answers_of.session true) (has_auth (auth_of s)) to)
    upgraded false to =
        smtp_client_send from msg (answers_of.session false) (has_auth (auth_of s)) to

    send_start_tls : List Text → Option Text
    unfolding upgraded
    send_start_tls to =
        and_then (net.dial s.host s.port)
          (and_then (answers_of.session false).greet (upgraded answers_of.offers_start_tls to))

    -- Send of a relaySender
    unfoldable pub relay_send : List Text → Option Text
    unfolding send_tls send_start_tls
    relay_send to =
        if not s.start_tls && is_smtps s.port
        then send_tls to
        else if s.start_tls
        then send_start_tls to
        else net.send_mail s.host s.port (auth_of s) from to msg

-- what the program asks of the network for either sender
pub record Outbound : Type 0 where
  pub relay : RelayNetwork
  pub hosts : Network Group

-- Send of either sender
unfoldable pub sender_send : ⦃u : Unicode⦄ → Outbound → Sender → Delivery → Option Text
sender_send out (relayed s) call = relay_send out.relay s call.from call.message call.to
sender_send out direct call = send_direct call.from call.message out.hosts call.to
