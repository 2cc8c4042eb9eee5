-- ===== src/Routing/Statements.antt =====
-- About the statements that the handlers issue: the tables after each of them.
use tempmail.Prelude.{◌==◌, ℕ, ◌≡◌, ap, Bool, not, Option, none, some, Any}
use tempmail.Text.{Text}
use tempmail.Models.{Time, Mailbox, Message, Result, ok, err}
use tempmail.Database.{
  IsNumber, Db, Fault, IsRelational, Unchanged, CreatedMailbox, CreatedMessage, Deleted,
  DeletedMessages, has_address, expired, received_before,
}
use tempmail.Inbound.{local_part}
use tempmail.Routing.Tables.{
  Routed, Houses, Routed-mailbox, Routed-message, Routed-filter, Routed-cascade,
}

module _ {Conn : Type 0} (d : Db Conn) where
  abbrev pub Keeps : Conn → Conn → Type 0
  Keeps s t = Routed (d.mailboxes s) (d.messages s) → Routed (d.mailboxes t) (d.messages t)

  pub Keeps-Unchanged : (s t : Conn) → Unchanged d s t → Keeps s t
  Keeps-Unchanged s t (e, f) h = rw (e, f) h

  Keeps-CreatedMailbox :
      (mb : Mailbox) (s : Conn) (r : Result Fault Mailbox) (t : Conn)
      → mb.name ≡ local_part mb.address
      → CreatedMailbox d mb s r t
      → Keeps s t
  Keeps-CreatedMailbox mb s (ok b) t name (e, f, g, ids, addresses) h =
      let same_name : b.name ≡ mb.name = ap (λ (x : Mailbox). x.name) g in
      let same_address : b.address ≡ mb.address = ap (λ (x : Mailbox). x.address) g in
      rw (e, f)
        (Routed-mailbox (d.mailboxes s) (d.messages s) b (rw (same_name, same_address) name) ids
          (rw same_address addresses) h)
  Keeps-CreatedMailbox mb s (err x) t name u h = Keeps-Unchanged s t u h

  pub Keeps-CreatedMessage :
      (m : Message) (s : Conn) (r : Result Fault Message) (t : Conn)
      → Any (Houses m) (d.mailboxes s)
      → CreatedMessage d m s r t
      → Keeps s t
  Keeps-CreatedMessage m s (ok x) t house (e, f, g) h =
      rw (e, f, g) (Routed-message (d.mailboxes s) (d.messages s) _ house h)
  Keeps-CreatedMessage m s (err x) t house u h = Keeps-Unchanged s t u h

  Keeps-Deleted :
      (p : Mailbox → Bool) (s : Conn) (r : Option Text) (n : ℕ) (t : Conn)
      → Deleted d p s r n t
      → Keeps s t
  Keeps-Deleted p s none n t (e, f, _) h =
      rw (e, f) (Routed-cascade p (d.mailboxes s) (d.messages s) h)
  Keeps-Deleted p s (some x) n t (u, _) h = Keeps-Unchanged s t u h

  Keeps-DeletedMessages :
      (p : Message → Bool) (s : Conn) (r : Option Text) (n : ℕ) (t : Conn)
      → DeletedMessages d p s r n t
      → Keeps s t
  Keeps-DeletedMessages p s none n t (e, f, _) h =
      rw (e, f) (Routed-filter (λ m. not (p m)) (d.mailboxes s) (d.messages s) h)
  Keeps-DeletedMessages p s (some x) n t (u, _) h = Keeps-Unchanged s t u h

module _ {Conn : Type 0} {d : Db Conn} (laws : IsRelational d) where
  pub Keeps-create_mailbox :
      (mb : Mailbox) (s : Conn)
      → mb.name ≡ local_part mb.address
      → Keeps d s (d.create_mailbox mb s).1
  Keeps-create_mailbox mb s name = Keeps-CreatedMailbox d mb s _ _ name (laws.created mb s)

  pub Keeps-create_message :
      (m : Message) (s : Conn) → Any (Houses m) (d.mailboxes s) → Keeps d s (d.create_message m s).1
  Keeps-create_message m s house = Keeps-CreatedMessage d m s _ _ house (laws.stored m s)

  pub Keeps-delete_mailboxes : (a : Text) (s : Conn) → Keeps d s (d.delete_mailboxes a s).1
  Keeps-delete_mailboxes a s = Keeps-Deleted d (has_address a) s _ _ _ (laws.deleted a s)

  pub Keeps-delete_expired : (t : Time) (s : Conn) → Keeps d s (d.delete_expired t s).1
  Keeps-delete_expired t s = Keeps-Deleted d (expired t) s _ _ _ (laws.purged t s)

  pub Keeps-delete_old : (t : Time) (s : Conn) → Keeps d s (d.delete_old t s).1
  Keeps-delete_old t s = Keeps-DeletedMessages d (received_before t) s _ _ _ (laws.aged t s)

  pub Keeps-delete_message :
      (id : Text) (n : ℕ) (s : Conn) → IsNumber id n → Keeps d s (d.delete_message id s).1
  Keeps-delete_message id n s h =
      Keeps-DeletedMessages d (λ m. m.id == n) s _ _ _ (laws.removed id n s h)
