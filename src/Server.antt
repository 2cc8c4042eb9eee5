-- ===== src/Server.antt =====
-- main.go: the routes of the API with their checks, and the clean-up between requests.
pub mod Guarded
pub mod Invariant
pub mod Refined
pub mod Kept
pub mod Interval
use tempmail.Prelude.{
  ℕ, ◌*◌, ◌^◌, Bool, true, false, Option, none, some, List, [], ◌∷◌, if◌then◌else◌,
}
use tempmail.Prelude.Int.{ℤ, pos, ◌*ℤ◌, leb_ℤ, ltb_ℤ, wrap64}
use tempmail.Text.{Text, Unicode}
use tempmail.Models.{Time, Result, ok, err}
use tempmail.Database.{Db}
use tempmail.Inbound.{Services}
use tempmail.Http.{Response, health, reply}
use tempmail.Access.{Headers, api_key_auth, webhook_auth}
use tempmail.Mailboxes
use tempmail.Messages
use tempmail.Sending
use tempmail.Mailboxes.{
  EmailHandler, CreateMailboxRequest, hours, cleanup_expired, cleanup_old_messages,
}
use tempmail.Messages.{MessageHandler}
use tempmail.Webhook.{WebhookPayload, receive}
use tempmail.Compose.{Sources}
use tempmail.Sending.{SendHandler, SendRequest, Delivery}

-- what main wires into the handlers
pub record App : Type 0 where
  pub version : Text
  pub api_key : Text
  pub webhook_secret : Text
  pub domains : List Text
  pub email : EmailHandler
  pub message : MessageHandler
  pub send : SendHandler
  pub message_ttl_hours : ℤ

-- the routes behind the API key; the random texts that a handler draws stand beside its body
pub data Management : Type 0 where
  create_mailbox : CreateMailboxRequest → Text → Text → Management
  list_mailboxes : Management
  get_mailbox : Text → Management
  delete_mailbox : Text → Management
  list_messages : Text → Management
  get_message : Text → Management
  delete_message : Text → Management
  send : Result Text SendRequest → Sources → Management

pub data Request : Type 0 where
  healthz : Request
  manage : Management → Request
  webhook : Result Text WebhookPayload → Request

-- the interval of the ticks of runCleanup: time.Duration(everyMin) * time.Minute, 30 minutes in place of
-- what is not positive
unfoldable pub tick_interval : ℤ → ℤ
tick_interval every_min =
    let minutes = if leb_ℤ every_min (pos 0) then pos 30 else every_min in
    wrap64 (minutes *ℤ pos (60 * 10 ^ 9))

module _ ⦃u : Unicode⦄ {Conn : Type 0} (d : Db Conn) (sv : Services) (app : App)
    (deliver : Delivery → Option Text) where
  manage_request : Management → (Conn → Conn) → Time → Conn → Response × Conn
  manage_request (create_mailbox req uuid sub) sync now s =
      Mailboxes.create_mailbox app.email req d uuid sub now s
  manage_request list_mailboxes sync now s = Mailboxes.list_mailboxes d s
  manage_request (get_mailbox address) sync now s = Mailboxes.get_mailbox d sync address s
  manage_request (delete_mailbox address) sync now s = Mailboxes.delete_mailbox d address s
  manage_request (list_messages address) sync now s =
      Messages.list_messages app.message d sv.next_year sync address now s
  manage_request (get_message id) sync now s = Messages.get_message d sync id s
  manage_request (delete_message id) sync now s = Messages.delete_message d id s
  manage_request (send body src) sync now s = (Sending.send app.send src deliver body, s)

  -- a check that refuses ends the request
  guarded : Option Response → (Conn → Response × Conn) → Conn → Response × Conn
  guarded (some refusal) handler s = (refusal, s)
  guarded none handler s = handler s

  unfoldable pub serve : Headers → Request → (Conn → Conn) → Time → Time → Conn → Response × Conn
  unfolding guarded manage_request
  serve c healthz sync now received s = (reply 200 (health app.version), s)
  serve c (manage m) sync now received s =
      guarded (api_key_auth app.api_key c) (manage_request m sync now) s
  serve c (webhook p) sync now received s =
      guarded (webhook_auth app.webhook_secret c) (receive d sv app.domains p now received) s

  -- one tick of runCleanup: errors are logged, and a message age of 0 hours or less turns that part off
  unfoldable pub cleanup_tick : Time → Time → Conn → Conn
  unfolding hours
  cleanup_tick now later s =
      let t = (cleanup_expired d now s).1 in
      if ltb_ℤ (pos 0) app.message_ttl_hours
      then (cleanup_old_messages d (hours app.message_ttl_hours) later t).1
      else t
