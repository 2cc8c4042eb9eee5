-- ===== src/Messages/Listing.antt =====
-- About handlers/message.go: what a client reads back from ListMessages.
use tempmail.Prelude.{
  subst, ◌≡◌, refl, ap, List, [], ◌∷◌, Any, Any-append_right, Bool-cases, inl, inr, arith,
}
use tempmail.Text.{Text, Unicode, to_lower}
use tempmail.Models.{Time, Mailbox, Message, Result, ok, err}
use tempmail.Database.{Db, Fault, not_found, failed, IsRelational, CreatedMailbox}
use tempmail.Inbound.{local_part, new_mailbox}
use tempmail.Http.{Response, message_list, reply}
use tempmail.Routing.{IsRouted}
use tempmail.Routing.Statements.{Keeps-create_mailbox}
use tempmail.Messages.{
  MessageHandler, is_configured_address, reply_messages, reply_retried, reply_created, reply_absent,
  reply_found, list_messages,
}
use tempmail.Messages.Addresses.{Lists, Selected-Lists}

-- The answer 200 carries the list of the address over the messages of the table.
abbrev Answers : {Conn : Type 0} → Db Conn → Text → Response × Conn → Type 0
Answers d address (r, t) =
    (ms : List Message) → r ≡ reply 200 (message_list ms) → Lists address (d.messages t) ms

module _ ⦃u : Unicode⦄ (h : MessageHandler) {Conn : Type 0} (d : Db Conn) (laws : IsRelational d)
    (finds : (mb : Mailbox) (s : Conn)
      → (ms : List Message) × (d.find_messages mb.id s ≡ ok ms)) where
  reply_messages-Lists :
      (mb : Mailbox) (address : Text) (s : Conn)
      → IsRouted d s
      → Any (λ b. b ≡ mb) (d.mailboxes s)
      → mb.address ≡ address
      → Answers d address (reply_messages h d mb s)
  unfolding reply_messages
  reply_messages-Lists mb address s k m e ms r =
      let (found, q) = finds mb s in
      let same : found ≡ ms = ground arith in
      subst (λ a. Lists a (d.messages s) ms) e
        (Selected-Lists d mb s ms k m (laws.listed mb.id s ms (cc)))

  reply_retried-Lists :
      (address : Text) (e : Fault) (s : Conn) (r : Result Fault Mailbox)
      → IsRouted d s
      → d.first_mailbox address s ≡ r
      → Answers d address (reply_retried h d address e s)
  unfolding reply_retried
  reply_retried-Lists address e s (ok mb) k q =
      let (m, a) = laws.first_ok address s mb q in
      rw (q, reply_retried) (reply_messages-Lists mb address s k m a)
  reply_retried-Lists address e s (err x) k q = rw (q, reply_retried) (λ ms r. ground arith)

  reply_created-Lists :
      (now : Time) (address : Text) (s : Conn) (r : Result Fault Mailbox) (t : Conn)
      → IsRouted d t
      → CreatedMailbox d (new_mailbox address (local_part address) now) s r t
      → Answers d address (reply_created h d address r t)
  unfolding reply_created
  reply_created-Lists now address s (ok b) t k (e, _, g, _, _) =
      reply_messages-Lists b address t k
        (rw e (Any-append_right _ (d.mailboxes s) (b ∷ []) (inl refl)))
        (ap (λ (x : Mailbox). x.address) g)
  reply_created-Lists now address s (err x) t k c = reply_retried-Lists address x t _ k refl

  module _ (next_year : Time → Time) where
    reply_absent-Lists :
        (address : Text) (now : Time) (s : Conn)
        → IsRouted d s
        → Answers d address (reply_absent h d next_year address now s)
    unfolding reply_absent
    reply_absent-Lists address now s k = elim (Bool-cases (is_configured_address h address)) [
      | inl e ↦
          let mb = new_mailbox address (local_part address) (next_year now) in
          rw e (
            reply_created-Lists (next_year now) address s _ _
              (Keeps-create_mailbox laws mb s refl k) (laws.created mb s))
      | inr e ↦ rw e (λ ms r. ground arith)
    ]

    reply_found-Lists :
        (address : Text) (now : Time) (s : Conn) (r : Result Fault Mailbox)
        → IsRouted d s
        → d.first_mailbox address s ≡ r
        → Answers d address (reply_found h d next_year address now s r)
    unfolding reply_found
    reply_found-Lists address now s (ok mb) k q =
        let (m, a) = laws.first_ok address s mb q in reply_messages-Lists mb address s k m a
    reply_found-Lists address now s (err not_found) k q = reply_absent-Lists address now s k
    reply_found-Lists address now s (err (failed e)) k q = λ ms r. ground arith

    -- In a database that meets IsRelational and whose queries for messages succeed, where the
    -- tables are routed after the ingestion, an answer 200 lists, without their sources, all the
    -- messages to the lower-cased address, each once and the newest first, and no others.
    pub list_messages-Lists :
        (sync : Conn → Conn) (param : Text) (now : Time) (s : Conn) (ms : List Message)
        → IsRouted d (sync s)
        → (list_messages h d next_year sync param now s).0 ≡ reply 200 (message_list ms)
        → Lists (to_lower param) (d.messages (list_messages h d next_year sync param now s).1) ms
    unfolding list_messages
    list_messages-Lists sync param now s ms k =
        reply_found-Lists (to_lower param) now (sync s) _ k refl ms
