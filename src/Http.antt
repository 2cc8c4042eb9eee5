-- ===== src/Http.antt =====
-- What the gin handlers answer: a status code and a JSON object.
use tempmail.Prelude.{ℕ, List}
use tempmail.Text.{Text, codes}
use tempmail.Models.{Mailbox, Message}
use tempmail.Database.{Fault, not_found, failed}

-- one constructor for each shape of answer
pub data Body : Type 0 where
  error : Text → Body
  mailbox : Mailbox → Body
  mailbox_list : List Mailbox → Body
  mailbox_with_messages : Mailbox → List Message → Body
  message_list : List Message → Body
  message_detail : Message → Text → Body
  deleted : Text → Body
  stored : ℕ → Text → Body
  ignored : Text → Body
  accepted : List Text → Body
  rejected : Text → List Text → Body
  health : Text → Body

pub record Response : Type 0 where
  pub status : ℕ
  pub body : Body

abbrev pub reply : ℕ → Body → Response
reply status body = record { status = status; body = body }

-- err.Error()
abbrev pub fault_text : Fault → Text
fault_text not_found = codes "record not found"
fault_text (failed e) = e
