-- ===== src/Webhook/Viewed.antt =====
-- About handlers/webhook.go: the abstract view after a call, and its answer.
use tempmail.Prelude.{◌≡◌, ◌≢◌, ◌⊎◌, refl, inl, inr, List, Bool-cases, is_empty, arith}
use tempmail.Text.{Text, Unicode, trim_space}
use tempmail.Models.{Time, Message, Result, ok, err}
use tempmail.Database.{Db, IsRelational}
use tempmail.Inbound.{Services, StoreError, bad_mime, not_for_our_domain, database}
use tempmail.Inbound.Viewed.{Delivered, IsMail, store_message-Delivered}
use tempmail.Http.{Response, stored, reply}
use tempmail.Mailroom.Tables.{View, open_box, put}
use tempmail.Mailroom.Statements.{view}
use tempmail.Webhook.{WebhookPayload, receive_reply, receive_raw, receive}

-- A mail that is accepted has arrived in the mailbox of its recipient, which is opened if it is closed;
-- and where the answer is another nothing changes, or only a mailbox is opened.
abbrev pub Receives : (Message → Type 0) → View → Response → View → Type 0
Receives P v r w =
    ((m : Message) × (r ≡ reply 200 (stored m.id m.to)) × P m × (w ≡ put m (open_box m.to v)))
    ⊎ ((r.status ≢ 200) × ((w ≡ v) ⊎ ((a : Text) × (w ≡ open_box a v))))

module _ ⦃u : Unicode⦄ {Conn : Type 0} (d : Db Conn) (laws : IsRelational d) (sv : Services)
    (domains : List Text) where
  receive_reply-Receives :
      (P : Message → Type 0) (v : View) (r : Result StoreError Message) (w : View)
      → Delivered d laws sv P v r w
      → Receives P v (receive_reply d sv domains r) w
  unfolding receive_reply
  receive_reply-Receives P v (ok m) w (content, e) = inl (m, refl, content, e)
  receive_reply-Receives P v (err (bad_mime x)) w h = inr (λ z. ground (arith, z), h)
  receive_reply-Receives P v (err not_for_our_domain) w h = inr (λ z. ground (arith, z), h)
  receive_reply-Receives P v (err (database x)) w h = inr (λ z. ground (arith, z), h)

  -- what is accepted: the mail of the call
  abbrev pub IsPosted : Result Text WebhookPayload → Time → Message → Type 0
  IsPosted (ok p) received m = IsMail d laws sv domains p.raw received m
  IsPosted (err e) received m = ⊥

  receive_raw-Receives :
      (raw : Text) (now received : Time) (s : Conn)
      → let done = receive_raw d sv domains raw now received s in
        Receives (IsMail d laws sv domains raw received) (view d s) done.0 (view d done.1)
  unfolding receive_raw
  receive_raw-Receives raw now received s = elim (Bool-cases (is_empty (trim_space raw))) [
    | inl e ↦ rw e (inr (λ z. ground (arith, z), inl refl))
    | inr e ↦ rw e (
        receive_reply-Receives (IsMail d laws sv domains raw received) (view d s) _ _
          (store_message-Delivered d laws sv domains raw now received s))
  ]

  pub receive-Receives :
      (p : Result Text WebhookPayload) (now received : Time) (s : Conn)
      → let done = receive d sv domains p now received s in
        Receives (IsPosted p received) (view d s) done.0 (view d done.1)
  unfolding receive
  receive-Receives (err e) now received s = inr (λ z. ground (arith, z), inl refl)
  receive-Receives (ok p) now received s = receive_raw-Receives p.raw now received s
