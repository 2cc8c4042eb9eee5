-- ===== src/Server/Refined.antt =====
-- About the routes and the clean-up of main.go: every event does to the abstract view what the contract
-- allows, and so does every run.
use tempmail.Prelude.{ℕ, ◌≡◌, refl, inl, inr, Option, none, some, Bool-cases, true, false, ◌⊎◌}
use tempmail.Prelude.Int.{pos, ltb_ℤ}
use tempmail.Text.{Text, Unicode, to_lower}
use tempmail.Models.{Time, Result}
use tempmail.Database.{IsNumber, Db, IsRelational}
use tempmail.Inbound.{Services}
use tempmail.Http.{Response, health, reply}
use tempmail.Access.{Headers, api_key_auth, webhook_auth}
use tempmail.Webhook.Viewed.{Receives, IsPosted, receive-Receives}
use tempmail.Routing.{IsRouted}
use tempmail.Mailboxes.{hours, cleanup_expired}
use tempmail.Mailboxes.Viewed.{
  IsRequested, IsRejection, ListFails, LoadFails, DeleteFails, create_mailbox-Creates,
  delete_mailbox-Deletes, Expires, Ages, cleanup_expired-Expires, cleanup_old_messages-Ages,
  list_mailboxes-ListsBoxes, get_mailbox-Visits,
}
use tempmail.Messages.{is_configured_address}
use tempmail.Messages.Viewed.{
  ReadFails, OpenFails, LookFails, DropFails, list_messages-Browses, get_message-Inspects,
  delete_message-Discards,
}
use tempmail.Mailroom.Statements.{view}
use tempmail.Mailroom.Contract.{
  Sends, Creates, Deletes, Browses, Discards, ListsBoxes, Visits, Inspects,
}
use tempmail.Sending.{Delivery}
use tempmail.Sending.Accepted.{IsTaken, IsUnsent, send-Sends}
use tempmail.Webhook.{WebhookPayload}
use tempmail.Server.Invariant.{IsNumbered}
use tempmail.Server.{
  App, Management, create_mailbox, list_mailboxes, get_mailbox, delete_mailbox, list_messages,
  get_message, delete_message, send, Request, healthz, manage, webhook, guarded, manage_request,
  serve, cleanup_tick,
}

-- the database when a handler starts: those that read mail wait for the ingestion first
abbrev pub awaited : {Conn : Type 0} → Management → (Conn → Conn) → Conn → Conn
awaited (get_mailbox address) sync s = sync s
awaited (list_messages address) sync s = sync s
awaited (get_message id) sync s = sync s
awaited _ sync s = s

module _ ⦃u : Unicode⦄ (app : App) where
  module _ {Conn : Type 0} (d : Db Conn) (laws : IsRelational d) (sv : Services)
      (deliver : Delivery → Option Text) where
    -- the contract of each management request, between two states of the database
    abbrev pub Meets : Management → Time → Conn → Response → Conn → Type 0
    Meets (create_mailbox req uuid sub) now s r t =
        Creates (IsRequested d laws app.email req uuid sub now)
          (IsRejection d laws app.email req uuid sub now s) (view d s) r (view d t)
    Meets list_mailboxes now s r t = ListsBoxes (ListFails d laws s) (view d s) r (view d t)
    Meets (get_mailbox a) now s r t =
        Visits (to_lower a) (LoadFails d laws (to_lower a) s) (view d s) r (view d t)
    Meets (delete_mailbox a) now s r t =
        Deletes (to_lower a) (DeleteFails d laws (to_lower a) s) (view d s) r (view d t)
    Meets (list_messages a) now s r t =
        Browses (is_configured_address app.message (to_lower a)) (to_lower a)
          (OpenFails app.message d laws (to_lower a) s) (ReadFails app.message d laws t) (view d s)
          r (view d t)
    Meets (get_message id) now s r t =
        (n : ℕ) × IsNumber id n × Inspects n (LookFails d laws id s) (view d s) r (view d t)
    Meets (delete_message id) now s r t =
        (n : ℕ) × IsNumber id n × Discards id n (DropFails d laws id s) (view d s) r (view d t)
    Meets (send body src) now s r t =
        Sends (IsTaken app.send src deliver body) (IsUnsent app.send src deliver body) (view d s) r
          (view d t)

    manage_request-Meets :
        (m : Management) (sync : Conn → Conn) (now : Time) (s : Conn)
        → IsNumbered (manage m)
        → IsRouted d (awaited m sync s)
        → let done = manage_request d sv app deliver m sync now s in
          Meets m now (awaited m sync s) done.0 done.1
    unfolding manage_request
    manage_request-Meets (create_mailbox req uuid sub) sync now s p k =
        create_mailbox-Creates d laws app.email req uuid sub now s
    manage_request-Meets list_mailboxes sync now s p k = list_mailboxes-ListsBoxes d laws s
    manage_request-Meets (get_mailbox a) sync now s p k = get_mailbox-Visits d laws sync a s k
    manage_request-Meets (delete_mailbox a) sync now s p k = delete_mailbox-Deletes d laws a s k
    manage_request-Meets (list_messages a) sync now s p k =
        list_messages-Browses app.message d laws sv.next_year sync a now s k
    manage_request-Meets (get_message id) sync now s (n, p) k =
        (n, p, get_message-Inspects d laws sync id n s p)
    manage_request-Meets (delete_message id) sync now s (n, p) k =
        (n, p, delete_message-Discards d laws id n s p)
    manage_request-Meets (send body src) sync now s p k =
        send-Sends app.send src deliver body (view d s)

    -- A check that refuses is the answer and nothing changes, the ingestion included; otherwise the
    -- contract of the request holds, from what the handler starts with.
    abbrev pub Checked :
        Option Response → (Conn → Response → Conn → Type 0) → Conn → Conn → Response × Conn → Type 0
    Checked (some refusal) P before s (r, t) = (r ≡ refusal) × (t ≡ s)
    Checked none P before s (r, t) = P before r t

    -- the contract of a call of the webhook
    abbrev pub Takes : Result Text WebhookPayload → Time → Conn → Response → Conn → Type 0
    Takes p received s r t =
        Receives (IsPosted d laws sv app.domains p received) (view d s) r (view d t)

    -- the contract of each request
    abbrev pub Obeys :
        Headers → Request → (Conn → Conn) → Time → Time → Conn → Response × Conn → Type 0
    Obeys c healthz sync now received s (r, t) = (r ≡ reply 200 (health app.version)) × (t ≡ s)
    Obeys c (manage m) sync now received s done =
        Checked (api_key_auth app.api_key c) (Meets m now) (awaited m sync s) s done
    Obeys c (webhook p) sync now received s done =
        Checked (webhook_auth app.webhook_secret c) (Takes p received) s s done

    guarded-Checked :
        (refusal : Option Response) (handler : Conn → Response × Conn)
        (P : Conn → Response → Conn → Type 0) (before s : Conn)
        → P before (handler s).0 (handler s).1
        → Checked refusal P before s (guarded d sv app deliver refusal handler s)
    unfolding guarded
    guarded-Checked (some refusal) handler P before s h = (refl, refl)
    guarded-Checked none handler P before s h = h

    -- the database when the handler of a request starts
    abbrev pub before : Request → (Conn → Conn) → Conn → Conn
    before (manage m) sync s = awaited m sync s
    before _ sync s = s

    pub serve-Obeys :
        (c : Headers) (r : Request) (sync : Conn → Conn) (now received : Time) (s : Conn)
        → IsNumbered r
        → IsRouted d (before r sync s)
        → Obeys c r sync now received s (serve d sv app deliver c r sync now received s)
    unfolding serve
    serve-Obeys c healthz sync now received s p k = (refl, refl)
    serve-Obeys c (manage m) sync now received s p k =
        guarded-Checked (api_key_auth app.api_key c) _ (Meets m now) (awaited m sync s) s
          (manage_request-Meets m sync now s p k)
    serve-Obeys c (webhook p) sync now received s _ k =
        guarded-Checked (webhook_auth app.webhook_secret c) _ (Takes p received) s s
          (receive-Receives d laws sv app.domains p now received s)

    -- In a database that meets IsRelational and whose tables are routed, a tick of the clean-up takes
    -- the expired mailboxes with their messages, and then, if the age that is set is positive, the messages
    -- that are older, and nothing else; a part whose deletion returns an error takes nothing, and no other does.
    pub cleanup_tick-Sweeps :
        (now later : Time) (s : Conn)
        → IsRouted d s
        → let t = (d.delete_expired now s).1 in
          Expires d now s (view d t)
          × (((ltb_ℤ (pos 0) app.message_ttl_hours ≡ true)
                × Ages d
                    (hours app.message_ttl_hours)
                    later
                    t
                    (view d (cleanup_tick d sv app deliver now later s)))
              ⊎ ((ltb_ℤ (pos 0) app.message_ttl_hours ≡ false)
                  × (view d (cleanup_tick d sv app deliver now later s) ≡ view d t)))
    unfolding cleanup_tick cleanup_expired
    cleanup_tick-Sweeps now later s k =
        let t = (cleanup_expired d now s).1 in
        (
          cleanup_expired-Expires d laws now s k,
          elim (Bool-cases (ltb_ℤ (pos 0) app.message_ttl_hours)) [
            | inl e ↦
                rw e (
                  inl
                    (refl, cleanup_old_messages-Ages d laws (hours app.message_ttl_hours) later t))
            | inr e ↦ rw e (inr (refl, refl))
          ],
        )
