-- ===== src/Mailroom/Contract.antt =====
-- What the service promises of each request: its answer, and the abstract view after it, in terms of the
-- view before it.
use mathlib.Core.List.{Perm}
use tempmail.Prelude.{ℕ, ◌==◌, All, ◌≡◌, ◌≢◌, ◌⊎◌, Bool, true, false, List, [], Any, any, map}
use tempmail.Text.{Text, codes, same}
use tempmail.Models.{Mailbox, Message}
use tempmail.Database.{without_raw, has_address, IsNewestFirst}
use tempmail.Http.{
  Response, accepted, error, mailbox, mailbox_list, mailbox_with_messages, message_list,
  message_detail, deleted, reply,
}
use tempmail.Messages.{zero_message}
use tempmail.Mailroom.Tables.{View, open_box, close_boxes, drop}

-- Where a contract names failures, `F` says with which error a statement has failed.

-- A mailbox of the kind that was asked for is created under an address that was closed, or the request is refused
-- for a reason, and nothing changes.
abbrev pub Creates : (Mailbox → Type 0) → (Response → Type 0) → View → Response → View → Type 0
Creates P IsRefusal v r w =
    ((mb : Mailbox) × (r ≡ reply 201 (mailbox mb))
      × P mb
      × (v.boxes mb.address ≡ false)
      × (w ≡ open_box mb.address v))
    ⊎ ((w ≡ v) × IsRefusal r)

-- The mailbox of an address goes with its messages, or there is none and nothing changes, or the database
-- fails and nothing changes.
abbrev pub Deletes : Text → (Text → Type 0) → View → Response → View → Type 0
Deletes a F v r w =
    ((r ≡ reply 200 (deleted a)) × (v.boxes a ≡ true) × (w ≡ close_boxes (same a) v))
    ⊎ ((r ≡ reply 404 (error (codes "mailbox not found"))) × (v.boxes a ≡ false) × (w ≡ v))
    ⊎ ((e : Text) × F e × (r ≡ reply 500 (error e)) × (w ≡ v))

-- the messages of an address, without their sources, each once and the newest first
abbrev pub Shows : Text → View → List Message → Type 0
Shows a v ms = Perm ms (map without_raw (v.inbox a)) × IsNewestFirst ms

-- An address with a mailbox, or one that the service may open, is open afterwards and its messages are
-- listed, or none if the query for them fails, which `G` says; another address has no mailbox; or the database fails.
abbrev pub Browses : Bool → Text → (Text → Type 0) → Type 0 → View → Response → View → Type 0
Browses configured a F G v r w =
    ((ms : List Message) × (r ≡ reply 200 (message_list ms))
      × (((ms ≡ []) × G) ⊎ Shows a w ms)
      × ((v.boxes a ≡ true) ⊎ (configured ≡ true))
      × (w ≡ open_box a v))
    ⊎ ((r ≡ reply 404 (error (codes "mailbox not found")))
        × (v.boxes a ≡ false)
        × (configured ≡ false)
        × (w ≡ v))
    ⊎ ((e : Text) × F e × (r ≡ reply 500 (error e)) × (w ≡ v))

-- No message has the identifier.
abbrev pub Lacks : ℕ → View → Type 0
Lacks n v = (a : Text) → All (λ m. m.id ≢ n) (v.inbox a)

-- The message of an identifier goes, and no other; or none has it and nothing changes; or the deletion fails, which
-- is answered alike, and nothing changes.
abbrev pub Discards : Text → ℕ → Type 0 → View → Response → View → Type 0
Discards id n F v r w =
    ((r ≡ reply 200 (deleted id))
      × ((m : Message) × Any (λ x. x ≡ m) (v.inbox m.to) × (m.id ≡ n))
      × (w ≡ drop (λ m. m.id == n) v))
    ⊎ ((r ≡ reply 404 (error (codes "message not found"))) × (Lacks n v ⊎ F) × (w ≡ v))

-- All the mailboxes that are open are listed, or none if the query fails.
abbrev pub ListsBoxes : Type 0 → View → Response → View → Type 0
ListsBoxes F v r w =
    ((boxes : List Mailbox) × (r ≡ reply 200 (mailbox_list boxes))
      × (((boxes ≡ []) × F) ⊎ ((a : Text) → any (has_address a) boxes ≡ v.boxes a)))
    × (w ≡ v)

-- The mailbox of an open address is shown with its messages; or the address is closed; or the database
-- fails. Nothing changes.
abbrev pub Visits : Text → (Text → Type 0) → View → Response → View → Type 0
Visits a F v r w =
    (((mb : Mailbox) × (ms : List Message) × (r ≡ reply 200 (mailbox_with_messages mb ms))
        × (mb.address ≡ a)
        × (v.boxes a ≡ true)
        × Shows a v ms)
      ⊎ ((r ≡ reply 404 (error (codes "mailbox not found"))) × (v.boxes a ≡ false))
      ⊎ ((e : Text) × F e × (r ≡ reply 500 (error e))))
    × (w ≡ v)

-- The message of an identifier is shown, and lies with the address that it was sent to; or none has it; or the
-- query fails, and the zero message is shown. Nothing changes.
abbrev pub Inspects : ℕ → Type 0 → View → Response → View → Type 0
Inspects n F v r w =
    (((m : Message) × (r ≡ reply 200 (message_detail m m.raw))
        × (m.id ≡ n)
        × Any (λ x. x ≡ m) (v.inbox m.to))
      ⊎ ((r ≡ reply 404 (error (codes "message not found"))) × Lacks n v)
      ⊎ ((r ≡ reply 200 (message_detail zero_message [])) × F))
    × (w ≡ v)

-- An answer 200 is that of a mail which was taken; any other says that the request was refused or the mail was not
-- taken. Nothing changes.
abbrev pub Sends : (List Text → Type 0) → (Response → Type 0) → View → Response → View → Type 0
Sends IsTaken IsRefusal v r w =
    (((to : List Text) × (r ≡ reply 200 (accepted to)) × IsTaken to) ⊎ IsRefusal r) × (w ≡ v)
