-- ===== src/Server/Invariant.antt =====
-- About the routes and the clean-up of main.go: the tables after a request and after a tick.
use tempmail.Prelude.{ℕ, Option, none, some, All, Bool-cases, inl, inr}
use tempmail.Prelude.Int.{pos, ltb_ℤ}
use tempmail.Text.{Text, Unicode}
use tempmail.Models.{Time}
use tempmail.Database.{IsNumber, Db, IsRelational}
use tempmail.Inbound.{Services}
use tempmail.Http.{Response}
use tempmail.Access.{Headers, api_key_auth, webhook_auth}
use tempmail.Routing.{IsRouted}
use tempmail.Routing.Statements.{Keeps}
use tempmail.Mailboxes
use tempmail.Mailboxes.{hours, cleanup_expired}
use tempmail.Mailboxes.Names.{IsPlain}
use tempmail.Mailboxes.Routed.{
  create_mailbox-IsRouted, delete_mailbox-IsRouted, cleanup_expired-IsRouted,
  cleanup_old_messages-IsRouted,
}
use tempmail.Messages
use tempmail.Messages.Routed.{list_messages-IsRouted, delete_message-IsRouted}
use tempmail.Webhook.{receive-IsRouted}
use tempmail.Sending.{Delivery}
use tempmail.Server.{
  App, Management, create_mailbox, list_mailboxes, get_mailbox, delete_mailbox, list_messages,
  get_message, delete_message, send, Request, healthz, manage, webhook, manage_request, guarded,
  serve, cleanup_tick,
}

-- A request that names a message names it by a number.
abbrev pub IsNumbered : Request → Type 0
IsNumbered (manage (get_message id)) = (n : ℕ) × IsNumber id n
IsNumbered (manage (delete_message id)) = (n : ℕ) × IsNumber id n
IsNumbered _ = Unit {0}

-- The random identifier that a request draws holds no `@`, and a message is named by a number.
abbrev pub DrawsPlain : Request → Type 0
DrawsPlain (manage (create_mailbox req uuid sub)) = All IsPlain uuid
DrawsPlain (manage (get_message id)) = (n : ℕ) × IsNumber id n
DrawsPlain (manage (delete_message id)) = (n : ℕ) × IsNumber id n
DrawsPlain _ = Unit {0}

pub DrawsPlain-IsNumbered : (r : Request) → DrawsPlain r → IsNumbered r
DrawsPlain-IsNumbered healthz h = tt
DrawsPlain-IsNumbered (webhook p) h = tt
DrawsPlain-IsNumbered (manage (create_mailbox req uuid sub)) h = tt
DrawsPlain-IsNumbered (manage list_mailboxes) h = tt
DrawsPlain-IsNumbered (manage (get_mailbox a)) h = tt
DrawsPlain-IsNumbered (manage (delete_mailbox a)) h = tt
DrawsPlain-IsNumbered (manage (list_messages a)) h = tt
DrawsPlain-IsNumbered (manage (get_message id)) h = h
DrawsPlain-IsNumbered (manage (delete_message id)) h = h
DrawsPlain-IsNumbered (manage (send body src)) h = tt

module _ ⦃u : Unicode⦄ {Conn : Type 0} (d : Db Conn) (laws : IsRelational d) (sv : Services)
    (app : App) (deliver : Delivery → Option Text) where
  guarded-IsRouted :
      (r : Option Response) (handler : Conn → Response × Conn) (s : Conn)
      → Keeps d s (handler s).1
      → Keeps d s (guarded d sv app deliver r handler s).1
  unfolding guarded
  guarded-IsRouted (some refusal) handler s k h = h
  guarded-IsRouted none handler s k h = k h

  module _ (sync : Conn → Conn)
      (sync-IsRouted : (s : Conn) → IsRouted d s → IsRouted d (sync s)) where
    manage_request-IsRouted :
        (m : Management) (now : Time) (s : Conn)
        → DrawsPlain (manage m)
        → Keeps d s (manage_request d sv app deliver m sync now s).1
    unfolding manage_request Mailboxes.list_mailboxes Mailboxes.get_mailbox Messages.get_message
    manage_request-IsRouted (create_mailbox req uuid sub) now s p h =
        create_mailbox-IsRouted d laws app.email req uuid sub now s p h
    manage_request-IsRouted list_mailboxes now s p h = h
    manage_request-IsRouted (get_mailbox address) now s p h = sync-IsRouted s h
    manage_request-IsRouted (delete_mailbox address) now s p h =
        delete_mailbox-IsRouted d laws address s h
    manage_request-IsRouted (list_messages address) now s p h =
        list_messages-IsRouted app.message d laws sv.next_year sync address now s
          (sync-IsRouted s h)
    manage_request-IsRouted (get_message id) now s (n, p) h =
        rw (laws.message_read id n (sync s) p) (sync-IsRouted s h)
    manage_request-IsRouted (delete_message id) now s (n, p) h =
        delete_message-IsRouted d laws id n s p h
    manage_request-IsRouted (send body src) now s p h = h

    pub serve-IsRouted :
        (c : Headers) (r : Request) (now received : Time) (s : Conn)
        → DrawsPlain r
        → Keeps d s (serve d sv app deliver c r sync now received s).1
    unfolding serve
    serve-IsRouted c healthz now received s p h = h
    serve-IsRouted c (manage m) now received s p h =
        guarded-IsRouted (api_key_auth app.api_key c) _ s (manage_request-IsRouted m now s p) h
    serve-IsRouted c (webhook q) now received s p h =
        guarded-IsRouted (webhook_auth app.webhook_secret c) _ s
          (receive-IsRouted d sv app.domains laws q now received s) h

  pub cleanup_tick-IsRouted :
      (now later : Time) (s : Conn) → Keeps d s (cleanup_tick d sv app deliver now later s)
  unfolding cleanup_tick
  cleanup_tick-IsRouted now later s h =
      let k = cleanup_expired-IsRouted d laws now s h in
      elim (Bool-cases (ltb_ℤ (pos 0) app.message_ttl_hours)) [
        | inl e ↦ rw e (
            cleanup_old_messages-IsRouted d laws (hours app.message_ttl_hours) later
              (cleanup_expired d now s).1 k)
        | inr e ↦ rw e k
      ]
