-- ===== src/Examples/Fixtures.antt =====
-- Small tables, mails and settings, on which the theorems are applied.
use tempmail.Prelude.{
  ℕ, zero, suc, ◌*◌, ◌-◌, ◌^◌, true, false, Option, none, some, List, [], ◌∷◌, if◌then◌else◌,
}
use tempmail.Prelude.Int.{pos, ◌+ℤ◌, ltb_ℤ}
use tempmail.Text.{Text, Unicode, codes, same}
use tempmail.Models.{Mailbox, Message, ok, err}
use tempmail.Database.Memory.{Tables}
use tempmail.Recipient.{Envelope, GraphMessage}
use tempmail.Inbound.{Services}
use tempmail.Access.{Headers}
use tempmail.Mailboxes.{EmailHandler, CreateMailboxRequest}
use tempmail.Messages.{MessageHandler}
use tempmail.Compose.{Sources}
use tempmail.Sending.{SendHandler, SendRequest, Delivery}
use tempmail.Server.{App}
use tempmail.Graph.{Token, Remote, Poller}

-- ASCII alone
instance abbrev pub ascii : Unicode
ascii = record { lower = λ c. c; space = λ c. false }

abbrev pub domains : List Text
domains = codes "x.io" ∷ []

abbrev pub bob : Text
bob = codes "bob@x.io"

-- a mail to Bob, and one to nobody here
abbrev pub bob_mail : Text
bob_mail = codes "to bob"

abbrev pub header_to : Text → Text → Text
header_to to name = if same name (codes "To") then to else []

abbrev pub envelope_to : Text → Envelope
envelope_to to = record { header = header_to to; text = codes "hi"; html = [] }

abbrev pub services : Services
services = record {
  read_envelope = λ raw.
      if same raw bob_mail
      then ok (envelope_to (codes " <BOB@x.io>"))
      else err (codes "not a mail");
  next_year = λ t. t +ℤ pos (365 * 86400 * 10 ^ 9);
  parse_time = λ s. if same s (codes "now") then some (pos (10 ^ 9)) else none;
}

abbrev pub no_tables : Tables
no_tables = record { boxes = []; last = 0; mails = []; broken = false }

abbrev pub bob_box : Mailbox
bob_box = record {
  id = 1;
  address = bob;
  name = codes "bob";
  created_at = pos 0;
  expires_at = pos 9;
}

abbrev pub bob_message : Message
bob_message = record {
  id = 1;
  mailbox_id = 1;
  graph_id = [];
  from = codes "eve@y.org";
  to = bob;
  subject = codes "hi";
  text_body = codes "hi";
  html_body = [];
  raw = bob_mail;
  received_at = pos 3;
}

abbrev pub one_mail : Tables
one_mail = record { boxes = bob_box ∷ []; last = 0; mails = bob_message ∷ []; broken = false }

abbrev pub email_handler : EmailHandler
email_handler = record {
  domain = codes "x.io";
  domains = domains;
  ttl_hours = pos 24;
  allow_subdomains = true;
}

abbrev pub message_handler : MessageHandler
message_handler = record { domains = domains; allow_subdomains = true }

abbrev pub send_handler : SendHandler
send_handler = record { domains = domains; default_from = codes "Team <no-reply@x.io>" }

abbrev pub app : App
app = record {
  version = codes "dev";
  api_key = codes "k3y";
  webhook_secret = codes "s3cret";
  domains = domains;
  email = email_handler;
  message = message_handler;
  send = send_handler;
  message_ttl_hours = pos 72;
}

abbrev pub no_delivery : Delivery → Option Text
no_delivery call = none

abbrev pub with_key : Headers
with_key = record {
  authorization = codes "Bearer k3y";
  api_key = [];
  webhook_secret = codes "s3cret";
}

abbrev pub without_key : Headers
without_key = record { authorization = []; api_key = codes "guess"; webhook_secret = [] }

abbrev pub wish : CreateMailboxRequest
wish = record { name = codes "Ann"; domain = []; subdomain = []; ttl_hours = pos 0 }

abbrev pub sources : Sources
sources = record {
  uuid = codes "0f";
  date = codes "Thu, 01 Jan 1970 00:00:00 +0000";
  boundary = codes "b1";
  q_words = λ s. codes "=?utf-8?q?=3F?=";
}

abbrev pub letter : SendRequest
letter = record {
  from = [];
  to = codes " Ann@y.org" ∷ [];
  subject = codes "Hello";
  text = codes "hi";
  html = [];
}

abbrev pub graph_mail : GraphMessage
graph_mail = record {
  id = codes "AAMk1";
  subject = codes "hi";
  from = codes "eve@y.org";
  to_recipients = bob ∷ [];
  cc_recipients = [];
  body = record { content_type = codes "text"; content = codes "hi" };
  received_at = codes "now";
}

-- fifty messages that were received in one second
abbrev pub copies : ℕ → List GraphMessage
copies zero = []
copies (suc n) = graph_mail ∷ copies n

abbrev pub token : Token
token = record { access_token = codes "t"; token_expiry = pos (10 ^ 12); refresh_token = codes "r" }

abbrev pub poller : Poller
poller = record { token = token; since = pos (10 ^ 9) }

abbrev pub early : Poller
early = record { token = token; since = pos (10 ^ 9 - 1) }

-- fifty messages of one second, and one alone behind them
abbrev pub settling : Remote
settling = record {
  exchange = λ r. err (codes "down");
  fetch = λ t since. ok (if ltb_ℤ since (pos (10 ^ 9)) then copies 50 else graph_mail ∷ []);
}

abbrev pub burst : Remote
burst = record { exchange = λ r. err (codes "down"); fetch = λ t since. ok (copies 50) }

abbrev pub quiet : Remote
quiet = record { exchange = λ r. err (codes "down"); fetch = λ t since. ok (graph_mail ∷ []) }
