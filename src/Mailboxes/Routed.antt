-- ===== src/Mailboxes/Routed.antt =====
-- About handlers/email.go: the tables after each handler and clean-up.
use tempmail.Prelude.{◌≡◌, refl, All, Bool-cases, inl, inr}
use tempmail.Prelude.Int.{ℤ, pos, ◌-ℤ◌, leb_ℤ}
use tempmail.Text.{Text, Unicode, to_lower}
use tempmail.Models.{Time, Result, ok, err}
use tempmail.Database.{Db, IsRelational}
use tempmail.Inbound.{local_part}
use tempmail.Http.{Response}
use tempmail.Routing.{IsRouted}
use tempmail.Routing.Statements.{
  Keeps, Keeps-create_mailbox, Keeps-delete_mailboxes, Keeps-delete_expired, Keeps-delete_old,
}
use tempmail.Mailboxes.{
  EmailHandler, CreateMailboxRequest, resolve_address, requested_mailbox, is_taken, register,
  register_resolved, create_mailbox, delete_mailbox, cleanup_expired, cleanup_old_messages,
}
use tempmail.Mailboxes.Names.{IsPlain, resolve_address_lem}

module _ ⦃u : Unicode⦄ {Conn : Type 0} (d : Db Conn) (laws : IsRelational d) where
  module _ (h : EmailHandler) (req : CreateMailboxRequest) where
    register-IsRouted :
        (name address : Text) (now : Time) (s : Conn)
        → name ≡ local_part address
        → Keeps d s (register h req d name address now s).1
    unfolding register requested_mailbox
    register-IsRouted name address now s e k = elim (Bool-cases (is_taken h req d address s)) [
      | inl taken ↦ rw taken k
      | inr free ↦
          rw free (Keeps-create_mailbox laws (requested_mailbox h req name address now) s e k)
    ]

    register_resolved-IsRouted :
        (r : Result Response (Text × Text)) (now : Time) (s : Conn)
        → ((name address : Text) → r ≡ ok (name, address) → name ≡ local_part address)
        → Keeps d s (register_resolved h req d r now s).1
    unfolding register_resolved
    register_resolved-IsRouted (err refusal) now s e k = k
    register_resolved-IsRouted (ok (name, address)) now s e k =
        register-IsRouted name address now s (e name address refl) k

    -- In a database that meets IsRelational, creating a mailbox leaves routed tables routed,
    -- whatever is asked for and whichever statement fails, if the random identifier holds no `@`.
    pub create_mailbox-IsRouted :
        (uuid sub : Text) (now : Time) (s : Conn)
        → All IsPlain uuid
        → IsRouted d s
        → IsRouted d (create_mailbox h req d uuid sub now s).1
    unfolding create_mailbox
    create_mailbox-IsRouted uuid sub now s plain k =
        register_resolved-IsRouted (resolve_address h req uuid sub) now s
          (λ name address e. (resolve_address_lem h req uuid sub name address plain e).3) k

  pub delete_mailbox-IsRouted :
      (param : Text) (s : Conn) → IsRouted d s → IsRouted d (delete_mailbox d param s).1
  unfolding delete_mailbox
  delete_mailbox-IsRouted param s k = Keeps-delete_mailboxes laws (to_lower param) s k

module _ {Conn : Type 0} (d : Db Conn) (laws : IsRelational d) where
  pub cleanup_expired-IsRouted :
      (now : Time) (s : Conn) → IsRouted d s → IsRouted d (cleanup_expired d now s).1
  unfolding cleanup_expired
  cleanup_expired-IsRouted now s k = Keeps-delete_expired laws now s k

  pub cleanup_old_messages-IsRouted :
      (age : ℤ) (now : Time) (s : Conn)
      → IsRouted d s
      → IsRouted d (cleanup_old_messages d age now s).1
  unfolding cleanup_old_messages
  cleanup_old_messages-IsRouted age now s k = elim (Bool-cases (leb_ℤ age (pos 0))) [
    | inl e ↦ rw e k
    | inr e ↦ rw e (Keeps-delete_old laws (now -ℤ age) s k)
  ]
