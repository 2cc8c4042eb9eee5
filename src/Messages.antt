-- ===== src/Messages.antt =====
-- handlers/message.go: reading and deleting messages.
pub mod Routed
pub mod Viewed
pub mod Addresses
pub mod Listing
use tempmail.Prelude.{
  ℕ, suc, ◌+◌, ◌-◌, Bool, true, false, ◌&&◌, ◌||◌, Option, none, some, List, [], ◌∷◌, any, drop,
  length, leb, ◌==◌, if◌then◌else◌,
}
use tempmail.Text.{Text, Unicode, codes, same, has_suffix, last_index, trim_space, to_lower}
use tempmail.Models.{Time, zero_time, Mailbox, Message, Result, ok, err}
use tempmail.Database.{Db, Fault, not_found, failed, Deletion}
use tempmail.Inbound.{local_part, new_mailbox}
use tempmail.Http.{Response, error, message_list, message_detail, deleted, reply, fault_text}

pub record MessageHandler : Type 0 where
  pub domains : List Text
  pub allow_subdomains : Bool

-- the zero models.Message, which a failed query leaves
abbrev pub zero_message : Message
zero_message = record {
  id = 0;
  mailbox_id = 0;
  graph_id = [];
  from = [];
  to = [];
  subject = [];
  text_body = [];
  html_body = [];
  raw = [];
  received_at = zero_time;
}

module _ ⦃u : Unicode⦄ (h : MessageHandler) where
  domain_matches : Text → Text → Bool
  domain_matches domain raw =
      let configured = to_lower (trim_space raw) in
      same domain configured || (h.allow_subdomains && has_suffix domain (b'.' ∷ configured))

  configured_from : Text → Option ℕ → Bool
  unfolding domain_matches
  configured_from address none = false
  configured_from address (some at) =
      if at == 0 || suc at == length address
      then false
      else any (domain_matches (drop (suc at) address)) h.domains

  unfoldable pub is_configured_address : Text → Bool
  unfolding configured_from
  is_configured_address address = configured_from address (last_index address b'@')

  module _ {Conn : Type 0} (d : Db Conn) where
    -- the messages of a mailbox; those of a failed query are none
    reply_messages : Mailbox → Conn → Response × Conn
    reply_messages mb s =
        (reply 200 (message_list (elim (d.find_messages mb.id s) [ ok ms ↦ ms | err e ↦ [] ])), s)

    -- a failed `Create` is read again: another request may have made the row
    reply_retried : Text → Fault → Conn → Response × Conn
    unfolding reply_messages
    reply_retried address fault s = elim (d.first_mailbox address s) [
      | ok mb ↦ reply_messages mb s
      | err e ↦ (reply 500 (error (fault_text fault)), s)
    ]

    reply_created : Text → Result Fault Mailbox → Conn → Response × Conn
    unfolding reply_messages reply_retried
    reply_created address (ok mb) s = reply_messages mb s
    reply_created address (err fault) s = reply_retried address fault s

    module _ (next_year : Time → Time) where
      reply_absent : Text → Time → Conn → Response × Conn
      unfolding reply_created
      reply_absent address now s =
          if is_configured_address address
          then (let mb = new_mailbox address (local_part address) (next_year now) in
              let (r, t) = d.create_mailbox mb s in reply_created address r t)
          else (reply 404 (error (codes "mailbox not found")), s)

      reply_found : Text → Time → Conn → Result Fault Mailbox → Response × Conn
      unfolding reply_messages reply_absent
      reply_found address now s (ok mb) = reply_messages mb s
      reply_found address now s (err not_found) = reply_absent address now s
      reply_found address now s (err (failed e)) = (reply 500 (error e), s)

      -- ListMessages; `sync` is what the ingestion does to the database first
      unfoldable pub list_messages : (Conn → Conn) → Text → Time → Conn → Response × Conn
      unfolding reply_found
      list_messages sync param now s =
          let t = sync s in
          let address = to_lower param in reply_found address now t (d.first_mailbox address t)

module _ {Conn : Type 0} (d : Db Conn) where
  -- any error but ErrRecordNotFound leaves the zero message, which is sent
  detail_reply : Result Fault Message → Response
  detail_reply (ok m) = reply 200 (message_detail m m.raw)
  detail_reply (err not_found) = reply 404 (error (codes "message not found"))
  detail_reply (err (failed e)) = reply 200 (message_detail zero_message [])

  unfoldable pub get_message : (Conn → Conn) → Text → Conn → Response × Conn
  unfolding detail_reply
  get_message sync id s = let (r, t) = d.first_message id (sync s) in (detail_reply r, t)

  delete_message_reply : Text → Deletion → Response
  delete_message_reply id res =
      if res.rows_affected == 0
      then reply 404 (error (codes "message not found"))
      else reply 200 (deleted id)

  unfoldable pub delete_message : Text → Conn → Response × Conn
  unfolding delete_message_reply
  delete_message id s = let (res, t) = d.delete_message id s in (delete_message_reply id res, t)
