-- ===== src/Database.antt =====
-- gorm over SQLite, which is not part of this repository: the statements that the program issues,
-- as operations on a connection, and what their documentation promises.
pub mod Memory
use mathlib.Core.List.{Perm}
use tempmail.Prelude.{
  ℕ, ◌+◌, ◌*◌, ◌-◌, ◌^◌, leb, if◌then◌else◌, ◌≤◌, ◌<◌, map, ◌≡◌, ◌≢◌, ◌&&◌, List, [], ◌∷◌, ◌++◌,
  Option, none, some, Bool, not, ◌==◌, All, Any, filter, any, length,
}
use tempmail.Prelude.Int.{ltb_ℤ, ◌≤ℤ◌}
use tempmail.Text.{Text, same}
use tempmail.Models.{Time, Mailbox, Message, Result, ok, err}

-- gorm.ErrRecordNotFound, or another error with its text
pub data Fault : Type 0 where
  not_found : Fault
  failed : Text → Fault

-- the fields Error and RowsAffected of the result of a DELETE
pub record Deletion : Type 0 where
  pub error : Option Text
  pub rows_affected : ℕ

-- the number that a text of digits writes
abbrev number_from : ℕ → Text → Option ℕ
number_from n [] = some n
number_from n (c ∷ s) =
    let rest = number_from (n * 10 + (c - b'0')) s in
    if leb b'0' c && leb c b'9' then rest else none

abbrev pub number : Text → Option ℕ
number [] = none
number (c ∷ s) = number_from 0 (c ∷ s)

-- A text that gorm takes as a primary key: the digits of a number that strconv.Atoi reads.
abbrev pub IsNumber : Text → ℕ → Type 0
IsNumber id n = (number id ≡ some n) × (n < 2 ^ 63)

pub record Db (Conn : Type 0) : Type 0 where
  -- the rows of the two tables
  pub mailboxes : Conn → List Mailbox
  pub messages : Conn → List Message
  -- First(&mb, "address = ?", a)
  pub first_mailbox : Text → Conn → Result Fault Mailbox
  -- Model(&Mailbox{}).Where("address = ?", a).Count
  pub count_mailboxes : Text → Conn → Result Fault ℕ
  -- Order("created_at DESC").Find(&boxes)
  pub find_mailboxes : Conn → Result Fault (List Mailbox)
  -- Preload("Messages", Omit("Raw").Order("received_at DESC")).First(&mb, "address = ?", a)
  pub load_mailbox : Text → Conn → Result Fault (Mailbox × List Message)
  -- Create(&mb), which fills in the identifier and the time of creation
  pub create_mailbox : Mailbox → Conn → Result Fault Mailbox × Conn
  -- Where("address = ?", a).Delete(&Mailbox{})
  pub delete_mailboxes : Text → Conn → Deletion × Conn
  -- Where("expires_at < ?", t).Delete(&Mailbox{})
  pub delete_expired : Time → Conn → Deletion × Conn
  -- Model(&Message{}).Where("graph_id = ?", g).Count
  pub count_graph_id : Text → Conn → Result Fault ℕ
  -- Create(msg), which fills in the identifier
  pub create_message : Message → Conn → Result Fault Message × Conn
  -- Omit("Raw").Where("mailbox_id = ?", i).Order("received_at DESC").Find(&msgs)
  pub find_messages : ℕ → Conn → Result Fault (List Message)
  -- First(&msg, id); a text that is no number is SQL, and may change the rows
  pub first_message : Text → Conn → Result Fault Message × Conn
  -- Delete(&Message{}, id)
  pub delete_message : Text → Conn → Deletion × Conn
  -- Where("received_at < ?", t).Delete(&Message{})
  pub delete_old : Time → Conn → Deletion × Conn

abbrev pub has_address : Text → Mailbox → Bool
has_address a b = same b.address a

abbrev pub expired : Time → Mailbox → Bool
expired t b = ltb_ℤ b.expires_at t

abbrev pub received_before : Time → Message → Bool
received_before t m = ltb_ℤ m.received_at t

-- `ON DELETE CASCADE`: a message goes with a mailbox that a DELETE takes.
abbrev pub owned : (Mailbox → Bool) → List Mailbox → Message → Bool
owned p boxes m = any (λ b. p b && b.id == m.mailbox_id) boxes

-- a row of a list, with the column `raw` left out
abbrev pub without_raw : Message → Message
without_raw m = record m { raw = [] }

-- the rows under the identifier of a mailbox, as a list shows them
abbrev pub rows_of : ℕ → List Message → List Message
rows_of i msgs = map without_raw (filter (λ m. m.mailbox_id == i) msgs)

-- received_at DESC
abbrev pub IsNewestFirst : List Message → Type 0
IsNewestFirst [] = Unit {0}
IsNewestFirst (m ∷ ms) = All (λ x. x.received_at ≤ℤ m.received_at) ms × IsNewestFirst ms

-- A query for the messages of a mailbox returns each of its rows once, the newest first.
abbrev pub Selected : ℕ → List Message → List Message → Type 0
Selected i msgs ms = Perm ms (rows_of i msgs) × IsNewestFirst ms

module _ {Conn : Type 0} (d : Db Conn) where
  abbrev pub Unchanged : Conn → Conn → Type 0
  Unchanged s t = (d.mailboxes t ≡ d.mailboxes s) × (d.messages t ≡ d.messages s)

  abbrev pub CreatedMailbox : Mailbox → Conn → Result Fault Mailbox → Conn → Type 0
  CreatedMailbox mb s (ok b) t =
      (d.mailboxes t ≡ d.mailboxes s ++ b ∷ [])
      × (d.messages t ≡ d.messages s)
      × (b ≡ record mb { id = b.id; created_at = b.created_at })
      × All (λ x. x.id ≢ b.id) (d.mailboxes s)
      × All (λ x. x.address ≢ mb.address) (d.mailboxes s)
  CreatedMailbox mb s (err e) t = Unchanged s t

  abbrev pub CreatedMessage : Message → Conn → Result Fault Message → Conn → Type 0
  CreatedMessage m s (ok x) t =
      (d.messages t ≡ d.messages s ++ x ∷ [])
      × (d.mailboxes t ≡ d.mailboxes s)
      × (x ≡ record m { id = x.id })
  CreatedMessage m s (err e) t = Unchanged s t

  abbrev pub Deleted : (Mailbox → Bool) → Conn → Option Text → ℕ → Conn → Type 0
  Deleted p s none n t =
      (d.mailboxes t ≡ filter (λ b. not (p b)) (d.mailboxes s))
      × (d.messages t ≡ filter (λ m. not (owned p (d.mailboxes s) m)) (d.messages s))
      × (n ≡ length (filter p (d.mailboxes s)))
  Deleted p s (some e) n t = Unchanged s t × (n ≡ 0)

  abbrev pub DeletedMessages : (Message → Bool) → Conn → Option Text → ℕ → Conn → Type 0
  DeletedMessages p s none n t =
      (d.messages t ≡ filter (λ m. not (p m)) (d.messages s))
      × (d.mailboxes t ≡ d.mailboxes s)
      × (n ≡ length (filter p (d.messages s)))
  DeletedMessages p s (some e) n t = Unchanged s t × (n ≡ 0)

  -- The documented behaviour of gorm and of SQLite with a unique index on the address, primary
  -- keys, and foreign keys enforced. A statement that fails changes nothing.
  pub record IsRelational : Type 0 where
    pub first_ok :
        (a : Text) (s : Conn) (mb : Mailbox)
        → d.first_mailbox a s ≡ ok mb
        → Any (λ b. b ≡ mb) (d.mailboxes s) × (mb.address ≡ a)
    pub first_absent :
        (a : Text) (s : Conn)
        → d.first_mailbox a s ≡ err not_found
        → All (λ b. b.address ≢ a) (d.mailboxes s)
    pub counted :
        (a : Text) (s : Conn) (n : ℕ)
        → d.count_mailboxes a s ≡ ok n
        → n ≡ length (filter (has_address a) (d.mailboxes s))
    pub created :
        (mb : Mailbox) (s : Conn)
        → CreatedMailbox mb s (d.create_mailbox mb s).0 (d.create_mailbox mb s).1
    pub deleted :
        (a : Text) (s : Conn)
        → Deleted
            (has_address a)
            s
            (d.delete_mailboxes a s).0.error
            (d.delete_mailboxes a s).0.rows_affected
            (d.delete_mailboxes a s).1
    pub purged :
        (t : Time) (s : Conn)
        → Deleted
            (expired t)
            s
            (d.delete_expired t s).0.error
            (d.delete_expired t s).0.rows_affected
            (d.delete_expired t s).1
    pub graph_counted :
        (g : Text) (s : Conn) (n : ℕ)
        → d.count_graph_id g s ≡ ok n
        → n ≡ length (filter (λ m. same m.graph_id g) (d.messages s))
    pub stored :
        (m : Message) (s : Conn)
        → CreatedMessage m s (d.create_message m s).0 (d.create_message m s).1
    pub listed :
        (i : ℕ) (s : Conn) (ms : List Message)
        → d.find_messages i s ≡ ok ms
        → Selected i (d.messages s) ms
    pub loaded :
        (a : Text) (s : Conn) (mb : Mailbox) (ms : List Message)
        → d.load_mailbox a s ≡ ok (mb, ms)
        → Any (λ b. b ≡ mb) (d.mailboxes s) × (mb.address ≡ a) × Selected mb.id (d.messages s) ms
    pub load_absent :
        (a : Text) (s : Conn)
        → d.load_mailbox a s ≡ err not_found
        → All (λ b. b.address ≢ a) (d.mailboxes s)
    pub all_listed :
        (s : Conn) (boxes : List Mailbox)
        → d.find_mailboxes s ≡ ok boxes
        → Perm boxes (d.mailboxes s)
    pub message_ok :
        (id : Text) (n : ℕ) (s : Conn) (m : Message)
        → IsNumber id n
        → (d.first_message id s).0 ≡ ok m
        → Any (λ x. x ≡ m) (d.messages s) × (m.id ≡ n)
    pub message_absent :
        (id : Text) (n : ℕ) (s : Conn)
        → IsNumber id n
        → (d.first_message id s).0 ≡ err not_found
        → All (λ m. m.id ≢ n) (d.messages s)
    -- a query by a number changes nothing
    pub message_read : (id : Text) (n : ℕ) (s : Conn) → IsNumber id n → (d.first_message id s).1 ≡ s
    pub aged :
        (t : Time) (s : Conn)
        → DeletedMessages
            (received_before t)
            s
            (d.delete_old t s).0.error
            (d.delete_old t s).0.rows_affected
            (d.delete_old t s).1
    -- a deletion by a number takes the message of this identifier; of another text, which is run as SQL, nothing
    -- is promised
    pub removed :
        (id : Text) (n : ℕ) (s : Conn)
        → IsNumber id n
        → DeletedMessages
            (λ m. m.id == n)
            s
            (d.delete_message id s).0.error
            (d.delete_message id s).0.rows_affected
            (d.delete_message id s).1

  -- Of a table with an identifier that SQLite numbers by AUTOINCREMENT, and with foreign keys enforced: an
  -- identifier is not given again, not even after its mailbox was deleted, and a message is only created under
  -- the identifier of a mailbox.
  pub record IsSequenced (last_id : Conn → ℕ) : Type 0 where
    pub bounded : (s : Conn) → All (λ b. b.id ≤ last_id s) (d.mailboxes s)
    pub created_next :
        (mb : Mailbox) (s : Conn) (b : Mailbox)
        → (d.create_mailbox mb s).0 ≡ ok b
        → last_id s < b.id
    pub create_grows : (mb : Mailbox) (s : Conn) → last_id s ≤ last_id (d.create_mailbox mb s).1
    pub delete_grows : (a : Text) (s : Conn) → last_id s ≤ last_id (d.delete_mailboxes a s).1
    pub expire_grows : (t : Time) (s : Conn) → last_id s ≤ last_id (d.delete_expired t s).1
    pub message_keeps : (m : Message) (s : Conn) → last_id s ≤ last_id (d.create_message m s).1
    pub drop_keeps :
        (id : Text) (n : ℕ) (s : Conn)
        → IsNumber id n
        → last_id s ≤ last_id (d.delete_message id s).1
    pub age_keeps : (t : Time) (s : Conn) → last_id s ≤ last_id (d.delete_old t s).1
    pub foreign :
        (m : Message) (s : Conn) (x : Message)
        → (d.create_message m s).0 ≡ ok x
        → Any (λ b. b.id ≡ m.mailbox_id) (d.mailboxes s)
