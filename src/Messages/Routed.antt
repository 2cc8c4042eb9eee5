-- ===== src/Messages/Routed.antt =====
-- About handlers/message.go: the tables after each handler.
use tempmail.Prelude.{ℕ, ◌≡◌, refl, Bool-cases, inl, inr, arith}
use tempmail.Text.{Text, Unicode, to_lower}
use tempmail.Models.{Time, Mailbox, Result, ok, err}
use tempmail.Database.{IsNumber, Db, Fault, not_found, failed, IsRelational}
use tempmail.Inbound.{local_part, new_mailbox}
use tempmail.Routing.{IsRouted}
use tempmail.Routing.Statements.{Keeps, Keeps-create_mailbox, Keeps-delete_message}
use tempmail.Messages.{
  MessageHandler, is_configured_address, reply_messages, reply_retried, reply_created, reply_absent,
  reply_found, list_messages, delete_message,
}

module _ ⦃u : Unicode⦄ (h : MessageHandler) {Conn : Type 0} (d : Db Conn)
    (laws : IsRelational d) where
  reply_retried-state :
      (address : Text) (e : Fault) (s : Conn) → (reply_retried h d address e s).1 ≡ s
  unfolding reply_retried reply_messages
  reply_retried-state address e s = ground arith

  reply_created-state :
      (address : Text) (r : Result Fault Mailbox) (s : Conn) → (reply_created h d address r s).1 ≡ s
  unfolding reply_created reply_messages
  reply_created-state address (ok mb) s = refl
  reply_created-state address (err e) s = reply_retried-state address e s

  module _ (next_year : Time → Time) where
    reply_absent-IsRouted :
        (address : Text) (now : Time) (s : Conn)
        → Keeps d s (reply_absent h d next_year address now s).1
    unfolding reply_absent
    reply_absent-IsRouted address now s k = elim (Bool-cases (is_configured_address h address)) [
      | inl e ↦
          rw (e, reply_created-state address _ _)
            (Keeps-create_mailbox laws (new_mailbox address (local_part address) (next_year now)) s
              refl k)
      | inr e ↦ rw e k
    ]

    reply_found-IsRouted :
        (address : Text) (now : Time) (s : Conn) (r : Result Fault Mailbox)
        → Keeps d s (reply_found h d next_year address now s r).1
    unfolding reply_found reply_messages
    reply_found-IsRouted address now s (ok mb) k = k
    reply_found-IsRouted address now s (err not_found) k = reply_absent-IsRouted address now s k
    reply_found-IsRouted address now s (err (failed e)) k = k

    -- Listing the messages of an address keeps the tables routed, if the ingestion before it does.
    pub list_messages-IsRouted :
        (sync : Conn → Conn) (param : Text) (now : Time) (s : Conn)
        → IsRouted d (sync s)
        → IsRouted d (list_messages h d next_year sync param now s).1
    unfolding list_messages
    list_messages-IsRouted sync param now s k =
        reply_found-IsRouted (to_lower param) now (sync s)
          (d.first_mailbox (to_lower param) (sync s)) k

module _ {Conn : Type 0} (d : Db Conn) (laws : IsRelational d) where
  pub delete_message-IsRouted :
      (id : Text) (n : ℕ) (s : Conn)
      → IsNumber id n
      → IsRouted d s
      → IsRouted d (delete_message d id s).1
  unfolding delete_message
  delete_message-IsRouted id n s h k = Keeps-delete_message laws id n s h k
