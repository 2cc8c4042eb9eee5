-- ===== src/Database/Memory.antt =====
-- Two tables in memory, in the order of insertion: a database as the program expects it, which the
-- concrete runs of this development use. A broken one fails at every statement.
pub mod Laws
pub mod Sequence
use tempmail.Prelude.{
  ℕ, suc, ◌+◌, ◌*◌, ◌-◌, ◌<◌, ◌≡◌, ◌≢◌, refl, Bool, true, false, not, ◌&&◌, ◌||◌, Option, none,
  some, List, [], ◌∷◌, ◌++◌, map, ◌==◌, ==_iff, leb, if◌then◌else◌, All, Any, All-map, any, filter,
  length, arith, Bool-cases, inl, inr,
}
use tempmail.Prelude.Int.{ltb_ℤ}
use tempmail.Text.{Text, codes, same}
use tempmail.Text.Laws.{same→≡, same_eq}
use tempmail.Models.{Mailbox, Message, Result, ok, err}
use tempmail.Database.{
  Db, number, Fault, not_found, failed, Deletion, IsRelational, has_address, expired,
  received_before, owned, rows_of, CreatedMailbox, CreatedMessage, Deleted, DeletedMessages,
}

-- `last` is the last identifier that was given to a mailbox, as SQLite keeps it for AUTOINCREMENT.
pub record Tables : Type 0 where
  pub boxes : List Mailbox
  pub last : ℕ
  pub mails : List Message
  pub broken : Bool

abbrev fault : Fault
fault = failed (codes "disk I/O error")

abbrev largest : {A : Type 0} → (A → ℕ) → List A → ℕ
largest f [] = 0
largest f (x ∷ xs) = let m = largest f xs in if leb m (f x) then f x else m

abbrev pub last_id : Tables → ℕ
last_id s = let m = largest (λ (x : Mailbox). x.id) s.boxes in if leb s.last m then m else s.last

abbrev first_with : {A : Type 0} → (A → Bool) → List A → Result Fault A
first_with p [] = err not_found
first_with p (x ∷ xs) = let rest = first_with p xs in if p x then ok x else rest

abbrev has_id : Text → Message → Bool
has_id id m = elim (number id) [ some n ↦ m.id == n | none ↦ false ]

abbrev guarded : {A : Type 0} → Tables → Result Fault A → Result Fault A
guarded s r = if s.broken then err fault else r

abbrev fail_deletion : Tables → Deletion × Tables
fail_deletion s = (record { error = some (codes "disk I/O error"); rows_affected = 0 }, s)

abbrev delete_boxes : (Mailbox → Bool) → Tables → Deletion × Tables
delete_boxes p s = if s.broken then fail_deletion s else (
  record { error = none; rows_affected = length (filter p s.boxes) },
  record s {
    boxes = filter (λ b. not (p b)) s.boxes;
    last = last_id s;
    mails = filter (λ m. not (owned p s.boxes m)) s.mails;
  },
)

abbrev delete_mails : (Message → Bool) → Tables → Deletion × Tables
delete_mails p s = if s.broken then fail_deletion s else (
  record { error = none; rows_affected = length (filter p s.mails) },
  record s { mails = filter (λ m. not (p m)) s.mails },
)

abbrev insert_box : Mailbox → Tables → Result Fault Mailbox × Tables
insert_box mb s =
    let b = record mb { id = suc (last_id s) } in
    if s.broken || any (has_address mb.address) s.boxes
    then (err (failed (codes "UNIQUE constraint failed")), s)
    else (ok b, record s { boxes = s.boxes ++ b ∷ []; last = b.id })

abbrev insert_mail : Message → Tables → Result Fault Message × Tables
insert_mail m s =
    let x = record m { id = suc (largest (λ (y : Message). y.id) s.mails) } in
    if s.broken || not (any (λ b. b.id == m.mailbox_id) s.boxes)
    then (err (failed (codes "FOREIGN KEY constraint failed")), s)
    else (ok x, record s { mails = s.mails ++ x ∷ [] })

-- a row among rows that stand newest first
abbrev place : Message → List Message → List Message
place m [] = m ∷ []
place m (x ∷ xs) =
    let rest = place m xs in if ltb_ℤ m.received_at x.received_at then x ∷ rest else m ∷ x ∷ xs

abbrev newest_first : List Message → List Message
newest_first [] = []
newest_first (m ∷ ms) = place m (newest_first ms)

abbrev mails_of : ℕ → List Message → List Message
mails_of i mails = newest_first (rows_of i mails)

abbrev with_mails : Tables → Result Fault Mailbox → Result Fault (Mailbox × List Message)
with_mails s (ok b) = ok (b, mails_of b.id s.mails)
with_mails s (err e) = err e

abbrev pub memory : Db Tables
memory = record {
  mailboxes = λ s. s.boxes;
  messages = λ s. s.mails;
  first_mailbox = λ a s. guarded s (first_with (has_address a) s.boxes);
  count_mailboxes = λ a s. guarded s (ok (length (filter (has_address a) s.boxes)));
  find_mailboxes = λ s. guarded s (ok s.boxes);
  load_mailbox = λ a s. with_mails s (guarded s (first_with (has_address a) s.boxes));
  create_mailbox = insert_box;
  delete_mailboxes = λ a. delete_boxes (has_address a);
  delete_expired = λ t. delete_boxes (expired t);
  count_graph_id = λ g s. guarded s (ok (length (filter (λ m. same m.graph_id g) s.mails)));
  create_message = insert_mail;
  find_messages = λ i s. guarded s (ok (mails_of i s.mails));
  first_message = λ id s. (guarded s (first_with (has_id id) s.mails), s);
  delete_message = λ id. delete_mails (has_id id);
  delete_old = λ t. delete_mails (received_before t);
}

-- The same tables, where a query for messages never fails.
abbrev pub steady : Db Tables
steady = record memory { find_messages = λ i s. ok (mails_of i s.mails) }
