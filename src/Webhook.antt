-- ===== src/Webhook.antt =====
-- handlers/webhook.go: mail that is pushed to the service.
pub mod Viewed
use tempmail.Prelude.{List, is_empty, if◌then◌else◌, Bool-cases, inl, inr}
use tempmail.Text.{Text, Unicode, codes, trim_space}
use tempmail.Models.{Time, Message, Result, ok, err}
use tempmail.Database.{Db, IsRelational}
use tempmail.Inbound.{Services, StoreError, bad_mime, not_for_our_domain, database, store_message}
use tempmail.Inbound.Routed.{store_message-IsRouted}
use tempmail.Routing.{IsRouted}
use tempmail.Routing.Statements.{Keeps}
use tempmail.Http.{Response, error, stored, ignored, reply, fault_text}

-- the fields of WebhookPayload; `Receive` reads only `raw`
pub record WebhookPayload : Type 0 where
  pub from : Text
  pub to : Text
  pub subject : Text
  pub raw : Text

module _ ⦃u : Unicode⦄ {Conn : Type 0} (d : Db Conn) (sv : Services) (domains : List Text) where
  receive_reply : Result StoreError Message → Response
  receive_reply (ok m) = reply 200 (stored m.id m.to)
  receive_reply (err (bad_mime e)) = reply 422 (error e)
  receive_reply (err not_for_our_domain) = reply 202 (ignored (codes "not for our domain"))
  receive_reply (err (database e)) = reply 422 (error (fault_text e))

  receive_raw : Text → Time → Time → Conn → Response × Conn
  unfolding receive_reply
  receive_raw raw now received s =
      if is_empty (trim_space raw)
      then (reply 400 (error (codes "missing 'raw' field")), s)
      else (let (r, t) = store_message d sv domains raw now received s in (receive_reply r, t))

  -- Receive; `err` is a body that does not bind, with the error's text
  unfoldable pub receive : Result Text WebhookPayload → Time → Time → Conn → Response × Conn
  unfolding receive_raw
  receive (err e) now received s = (reply 400 (error e), s)
  receive (ok p) now received s = receive_raw p.raw now received s

  module _ (laws : IsRelational d) where
    receive_raw-IsRouted :
        (raw : Text) (now received : Time) (s : Conn) → Keeps d s (receive_raw raw now received s).1
    unfolding receive_raw
    receive_raw-IsRouted raw now received s k = elim (Bool-cases (is_empty (trim_space raw))) [
      | inl e ↦ rw e k
      | inr e ↦ rw e (store_message-IsRouted d laws sv domains raw now received s k)
    ]

    pub receive-IsRouted :
        (p : Result Text WebhookPayload) (now received : Time) (s : Conn)
        → IsRouted d s
        → IsRouted d (receive p now received s).1
    unfolding receive
    receive-IsRouted (err e) now received s k = k
    receive-IsRouted (ok p) now received s k = receive_raw-IsRouted p.raw now received s k
