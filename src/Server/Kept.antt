-- ===== src/Server/Kept.antt =====
-- About the routes of main.go: mail that has arrived stays, over a request that deletes nothing.
use tempmail.Prelude.{refl, ap, inl, inr, Bool, Option, none, some}
use tempmail.Text.{Text, Unicode, to_lower}
use tempmail.Models.{Time, Mailbox, Message}
use tempmail.Database.{Db, IsRelational}
use tempmail.Inbound.{Services}
use tempmail.Http.{Response}
use tempmail.Access.{api_key_auth, webhook_auth}
use tempmail.Routing.{IsRouted}
use tempmail.Mailroom.Tables.{View}
use tempmail.Mailroom.Statements.{view}
use tempmail.Mailroom.Growth.{Extends, Extends-eq, Extends-trans, Extends-open_box, Extends-arrival}
use tempmail.Mailroom.Contract.{Creates, Browses}
use tempmail.Webhook.Viewed.{Receives}
use tempmail.Sending.{Delivery}
use tempmail.Mailboxes.Viewed.{IsRequested, IsRejection}
use tempmail.Messages.{is_configured_address}
use tempmail.Messages.Viewed.{OpenFails, ReadFails}
use tempmail.Server.{
  App, Management, create_mailbox, list_mailboxes, get_mailbox, delete_mailbox, list_messages,
  get_message, delete_message, send, Request, healthz, manage, webhook,
}
use tempmail.Server.Refined.{Takes, Meets, Checked, Obeys, awaited, before}

Creates-Extends :
    (P : Mailbox → Type 0) (Q : Response → Type 0) (v : View) (r : Response) (w : View)
    → Creates P Q v r w
    → Extends v w
Creates-Extends P Q v r w (inl (mb, _, _, _, e)) = Extends-open_box mb.address v w e
Creates-Extends P Q v r w (inr (e, _)) = Extends-eq v w e

Browses-Extends :
    (b : Bool) (a : Text) (F : Text → Type 0) (G : Type 0) (v : View) (r : Response) (w : View)
    → Browses b a F G v r w
    → Extends v w
Browses-Extends b a F G v r w (inl (_, _, _, _, e)) = Extends-open_box a v w e
Browses-Extends b a F G v r w (inr (inl (_, _, _, e))) = Extends-eq v w e
Browses-Extends b a F G v r w (inr (inr (_, _, _, e))) = Extends-eq v w e

Receives-Extends :
    (P : Message → Type 0) (v : View) (r : Response) (w : View) → Receives P v r w → Extends v w
Receives-Extends P v r w (inl (m, _, _, e)) = Extends-arrival m m.to v w e
Receives-Extends P v r w (inr (_, inl e)) = Extends-eq v w e
Receives-Extends P v r w (inr (_, inr (a, e))) = Extends-open_box a v w e

-- A request that asks for no deletion.
abbrev pub IsGentle : Request → Type 0
IsGentle (manage (delete_mailbox a)) = ⊥
IsGentle (manage (delete_message id)) = ⊥
IsGentle _ = Unit {0}

module _ ⦃u : Unicode⦄ (app : App) {Conn : Type 0} (d : Db Conn) (laws : IsRelational d)
    (sv : Services) (deliver : Delivery → Option Text) where
  Meets-Extends :
      (m : Management) (now : Time) (s : Conn) (r : Response) (t : Conn)
      → IsGentle (manage m)
      → Meets app d laws sv deliver m now s r t
      → Extends (view d s) (view d t)
  Meets-Extends (create_mailbox req uuid sub) now s r t g h =
      Creates-Extends (IsRequested d laws app.email req uuid sub now)
        (IsRejection d laws app.email req uuid sub now s) _ r _ h
  Meets-Extends list_mailboxes now s r t g h = Extends-eq _ _ h.1
  Meets-Extends (get_mailbox a) now s r t g h = Extends-eq _ _ h.1
  Meets-Extends (delete_mailbox a) now s r t g h = absurd g
  Meets-Extends (list_messages a) now s r t g h =
      Browses-Extends (is_configured_address app.message (to_lower a)) (to_lower a)
        (OpenFails app.message d laws (to_lower a) s) (ReadFails app.message d laws t) _ r _ h
  Meets-Extends (get_message id) now s r t g (_, _, h) = Extends-eq _ _ h.1
  Meets-Extends (delete_message id) now s r t g h = absurd g
  Meets-Extends (send body src) now s r t g h = Extends-eq _ _ h.1

  Checked-Extends :
      (refusal : Option Response) (P : Conn → Response → Conn → Type 0) (t s : Conn)
      (done : Response × Conn)
      → Extends (view d s) (view d t)
      → (Extends (view d s) (view d t) → P t done.0 done.1 → Extends (view d s) (view d done.1))
      → Checked app d laws sv deliver refusal P t s done
      → Extends (view d s) (view d done.1)
  Checked-Extends (some r) P t s done first next (_, e) = Extends-eq (view d s) _ (ap (view d) e)
  Checked-Extends none P t s done first next h = next first h

  awaited-Extends :
      (m : Management) (sync : Conn → Conn) (s : Conn)
      → Extends (view d s) (view d (sync s))
      → Extends (view d s) (view d (awaited m sync s))
  awaited-Extends (create_mailbox req uuid sub) sync s h = Extends-eq _ _ refl
  awaited-Extends list_mailboxes sync s h = Extends-eq _ _ refl
  awaited-Extends (get_mailbox a) sync s h = h
  awaited-Extends (delete_mailbox a) sync s h = Extends-eq _ _ refl
  awaited-Extends (list_messages a) sync s h = h
  awaited-Extends (get_message id) sync s h = h
  awaited-Extends (delete_message id) sync s h = Extends-eq _ _ refl
  awaited-Extends (send body src) sync s h = Extends-eq _ _ refl

  awaited-IsRouted :
      (m : Management) (sync : Conn → Conn) (s : Conn)
      → IsRouted d s
      → IsRouted d (sync s)
      → IsRouted d (awaited m sync s)
  awaited-IsRouted (create_mailbox req uuid sub) sync s h k = h
  awaited-IsRouted list_mailboxes sync s h k = h
  awaited-IsRouted (get_mailbox a) sync s h k = k
  awaited-IsRouted (delete_mailbox a) sync s h k = h
  awaited-IsRouted (list_messages a) sync s h k = k
  awaited-IsRouted (get_message id) sync s h k = k
  awaited-IsRouted (delete_message id) sync s h k = h
  awaited-IsRouted (send body src) sync s h k = h

  pub Obeys-Extends :
      (r : Request) (c : _) (sync : Conn → Conn) (now received : Time) (s : Conn)
      (done : Response × Conn)
      → IsGentle r
      → Extends (view d s) (view d (sync s))
      → Obeys app d laws sv deliver c r sync now received s done
      → Extends (view d s) (view d done.1)
  Obeys-Extends healthz c sync now received s done g h (_, e) =
      Extends-eq (view d s) _ (ap (view d) e)
  Obeys-Extends (manage m) c sync now received s done g h k =
      Checked-Extends (api_key_auth app.api_key c) (Meets app d laws sv deliver m now)
        (awaited m sync s) s done (awaited-Extends m sync s h)
        (λ first met. Extends-trans _ _ _ first (Meets-Extends m now _ done.0 _ g met)) k
  Obeys-Extends (webhook p) c sync now received s done g h k =
      Checked-Extends (webhook_auth app.webhook_secret c) (Takes app d laws sv deliver p received) s
        s done (Extends-eq _ _ refl) (λ first got. Receives-Extends _ (view d s) done.0 _ got) k

  pub before-IsRouted :
      (r : Request) (sync : Conn → Conn) (s : Conn)
      → IsRouted d s
      → IsRouted d (sync s)
      → IsRouted d (before app d laws sv deliver r sync s)
  before-IsRouted healthz sync s h k = h
  before-IsRouted (manage m) sync s h k = awaited-IsRouted m sync s h k
  before-IsRouted (webhook p) sync s h k = h
