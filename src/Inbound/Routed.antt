-- ===== src/Inbound/Routed.antt =====
-- About handlers/store.go and handlers/graph_store.go: the tables after a message is stored.
use tempmail.Prelude.{Bool-cases, ◌≡◌, refl, ap, inl, inr, List, ◌∷◌, [], Any, Any-append_right}
use tempmail.Text.{Text, Unicode}
use tempmail.Models.{Time, Mailbox, Message, Result, ok, err}
use tempmail.Database.{Db, Fault, not_found, failed, IsRelational, CreatedMailbox}
use tempmail.Recipient.{Envelope, GraphMessage, find_recipient, find_graph_recipient}
use tempmail.Inbound.{
  already_stored, graph_message, store_graph_to, store_graph_message, Services, auto_mailbox,
  found_or_create, find_or_create, file_under, store_envelope, store_read, mail_message,
  store_message,
}
use tempmail.Routing.{Houses, IsRouted}
use tempmail.Routing.Statements.{Keeps, Keeps-create_mailbox, Keeps-create_message}

module _ ⦃u : Unicode⦄ {Conn : Type 0} (d : Db Conn) (laws : IsRelational d) (sv : Services) where
  -- a mailbox of the table, with the address that was asked for
  abbrev pub Found : Text → Result Fault Mailbox → Conn → Type 0
  Found to (ok mb) t = Any (λ b. b ≡ mb) (d.mailboxes t) × (mb.address ≡ to)
  Found to (err e) t = Unit

  Found-created :
      (to : Text) (now : Time) (s : Conn) (r : Result Fault Mailbox) (t : Conn)
      → CreatedMailbox d (auto_mailbox d sv to now) s r t
      → Found to r t
  Found-created to now s (ok b) t (e, f, g, _, _) = (
    rw e (Any-append_right _ (d.mailboxes s) (b ∷ []) (inl refl)),
    ap (λ (x : Mailbox). x.address) g,
  )
  Found-created to now s (err e) t _ = tt

  found_or_create_lem :
      (to : Text) (now : Time) (s : Conn) (r : Result Fault Mailbox)
      → d.first_mailbox to s ≡ r
      → Keeps d s (found_or_create d sv to now s r).1
        × Found to (found_or_create d sv to now s r).0 (found_or_create d sv to now s r).1
  unfolding found_or_create
  found_or_create_lem to now s (ok mb) e = (λ h. h, laws.first_ok to s mb e)
  found_or_create_lem to now s (err not_found) e = (
    Keeps-create_mailbox laws (auto_mailbox d sv to now) s refl,
    Found-created to now s _ _ (laws.created (auto_mailbox d sv to now) s),
  )
  found_or_create_lem to now s (err (failed x)) e = (λ h. h, tt)

  -- The mailbox that is found or created is in the table, and the tables stay routed.
  pub find_or_create_lem :
      (to : Text) (now : Time) (s : Conn)
      → Keeps d s (find_or_create d sv to now s).1
        × Found to (find_or_create d sv to now s).0 (find_or_create d sv to now s).1
  unfolding find_or_create
  find_or_create_lem to now s = found_or_create_lem to now s (d.first_mailbox to s) refl

  pub Any-Houses :
      (m : Message) (mb : Mailbox) (boxes : List Mailbox)
      → m.mailbox_id ≡ mb.id
      → m.to ≡ mb.address
      → Any (λ b. b ≡ mb) boxes
      → Any (Houses m) boxes
  Any-Houses m mb [] i a h = h
  Any-Houses m mb (b ∷ boxes) i a (inl e) = inl (cc, cc)
  Any-Houses m mb (b ∷ boxes) i a (inr h) = inr (Any-Houses m mb boxes i a h)

  -- Filing a message under a mailbox of the table keeps the tables routed, if the message has the
  -- identifier and the address of the mailbox.
  file_under-IsRouted :
      (message : Mailbox → Message) (to : Text) (r : Result Fault Mailbox) (t : Conn)
      → ((mb : Mailbox) → (message mb).mailbox_id ≡ mb.id)
      → ((mb : Mailbox) → (message mb).to ≡ to)
      → Found to r t
      → Keeps d t (file_under d sv message r t).1
  unfolding file_under
  file_under-IsRouted message to (ok mb) t ids tos (found, a) =
      Keeps-create_message laws (message mb) t
        (Any-Houses (message mb) mb (d.mailboxes t) (ids mb) (cc (tos mb)) found)
  file_under-IsRouted message to (err e) t ids tos f = λ h. h

  store_envelope-IsRouted :
      (raw : Text) (env : Envelope) (to : Text) (now received : Time) (s : Conn)
      → Keeps d s (store_envelope d sv raw env to now received s).1
  unfolding store_envelope
  store_envelope-IsRouted raw env [] now received s h = h
  store_envelope-IsRouted raw env (c ∷ to) now received s h =
      let (keeps, found) = find_or_create_lem (c ∷ to) now s in
      file_under-IsRouted (mail_message d sv raw env (c ∷ to) received) (c ∷ to) _ _ (λ mb. refl)
        (λ mb. refl) found (keeps h)

  store_read-IsRouted :
      (domains : List Text) (raw : Text) (now received : Time) (s : Conn) (r : Result Text Envelope)
      → Keeps d s (store_read d sv domains raw now received s r).1
  unfolding store_read
  store_read-IsRouted domains raw now received s (err e) h = h
  store_read-IsRouted domains raw now received s (ok env) h =
      store_envelope-IsRouted raw env (find_recipient env domains) now received s h

  -- In a database that meets IsRelational, storing a mail leaves routed tables routed, whatever
  -- the mail and whichever statement fails.
  pub store_message-IsRouted :
      (domains : List Text) (raw : Text) (now received : Time) (s : Conn)
      → IsRouted d s
      → IsRouted d (store_message d sv domains raw now received s).1
  unfolding store_message
  store_message-IsRouted domains raw now received s h =
      store_read-IsRouted domains raw now received s (sv.read_envelope raw) h

  store_graph_to-IsRouted :
      (gm : GraphMessage) (to : Text) (now received : Time) (s : Conn)
      → Keeps d s (store_graph_to d sv gm to now received s).1
  unfolding store_graph_to graph_message
  store_graph_to-IsRouted gm [] now received s h = h
  store_graph_to-IsRouted gm (c ∷ to) now received s h =
      elim (Bool-cases (already_stored d sv gm.id s)) [
        | inl e ↦ rw e h
        | inr e ↦ rw e (
            let (keeps, found) = find_or_create_lem (c ∷ to) now s in
            file_under-IsRouted (graph_message d sv gm (c ∷ to) received) (c ∷ to) _ _ (λ mb. refl)
              (λ mb. refl) found (keeps h))
      ]

  -- In a database that meets IsRelational, storing a Graph message leaves routed tables routed,
  -- whatever the message and whichever statement fails.
  pub store_graph_message-IsRouted :
      (domains : List Text) (gm : GraphMessage) (now received : Time) (s : Conn)
      → IsRouted d s
      → IsRouted d (store_graph_message d sv domains gm now received s).1
  unfolding store_graph_message
  store_graph_message-IsRouted domains gm now received s h =
      store_graph_to-IsRouted gm (find_graph_recipient gm domains) now received s h
