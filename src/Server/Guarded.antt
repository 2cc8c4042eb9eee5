-- ===== src/Server/Guarded.antt =====
-- About the routes of main.go: requests that do not pass their check.
use tempmail.Prelude.{◌≡◌, ◌≢◌, Option, some, arith, is_empty, if◌then◌else◌}
use tempmail.Text.{Text, Unicode, codes}
use tempmail.Text.Laws.{same_iff}
use tempmail.Models.{Time, Result}
use tempmail.Database.{Db}
use tempmail.Inbound.{Services}
use tempmail.Http.{error, reply}
use tempmail.Access.{Headers, extract_key, api_key_auth, webhook_auth}
use tempmail.Webhook.{WebhookPayload}
use tempmail.Sending.{Delivery}
use tempmail.Server.{App, Management, manage, webhook, serve}

module _ ⦃u : Unicode⦄ {Conn : Type 0} (d : Db Conn) (sv : Services) (app : App)
    (deliver : Delivery → Option Text) where
  api_key_auth_refuses :
      (key : Text) (c : Headers)
      → extract_key c ≢ key
      → api_key_auth key c ≡ some (reply 401 (error (codes "invalid or missing API key")))
  unfolding api_key_auth
  api_key_auth_refuses key c h = ground (arith, same_iff (extract_key c) key)

  -- A management request whose key is not the configured one is answered 401 and changes nothing,
  -- the ingestion included.
  pub serve_unauthorized :
      (c : Headers) (m : Management) (sync : Conn → Conn) (now received : Time) (s : Conn)
      → extract_key c ≢ app.api_key
      → serve d sv app deliver c (manage m) sync now received s
        ≡ (reply 401 (error (codes "invalid or missing API key")), s)
  unfolding serve
  serve_unauthorized c m sync now received s h = rw (api_key_auth_refuses app.api_key c h)

  -- A webhook call is refused and changes nothing if no secret is configured (503) or if its secret
  -- is another (401).
  pub serve_webhook_refused :
      (c : Headers) (p : Result Text WebhookPayload) (sync : Conn → Conn) (now received : Time)
      (s : Conn)
      → c.webhook_secret ≢ app.webhook_secret
      → serve d sv app deliver c (webhook p) sync now received s ≡ (
        (if is_empty app.webhook_secret
            then reply 503 (error (codes "webhook secret not configured"))
            else reply 401 (error (codes "invalid webhook secret"))),
        s,
      )
  unfolding serve webhook_auth
  serve_webhook_refused c p sync now received s h =
      ground (arith, same_iff c.webhook_secret app.webhook_secret)
