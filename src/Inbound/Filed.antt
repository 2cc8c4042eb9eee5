-- ===== src/Inbound/Filed.antt =====
-- About handlers/store.go and handlers/graph_store.go: where a message is filed that is stored, and what it holds.
use tempmail.Prelude.{
  ◌≡◌, ◌∙◌, ◌⊎◌, refl, sym, ap, true, false, Option, none, some, List, [], ◌∷◌, Any, inl, inr,
}
use tempmail.Text.{Text, Unicode, codes, trim_space}
use tempmail.Models.{Time, Mailbox, Message, Result, ok, err}
use tempmail.Database.{Db, Fault, IsRelational, CreatedMessage}
use tempmail.Recipient.{Envelope, GraphMessage, find_recipient, split_graph_body}
use tempmail.Inbound.{
  Services, StoreError, not_for_our_domain, bad_mime, filed, file_under, find_or_create,
  mail_message, store_envelope, store_read, store_message, already_stored,
}
use tempmail.Inbound.Routed.{Found, find_or_create_lem, Any-Houses}
use tempmail.Inbound.Viewed.{Provides, found_or_create-Provides}
use tempmail.Routing.{Houses}
use tempmail.Mailroom.Tables.{open_box, put}
use tempmail.Mailroom.Statements.{view, Arrives, Arrives-CreatedMessage}

module _ ⦃u : Unicode⦄ {Conn : Type 0} (d : Db Conn) (laws : IsRelational d) (sv : Services) where
  -- A message that is stored holds what was sent; it is the one new message, at the end of the mailbox of the
  -- recipient, and its row names the row of this mailbox. Where there is an error, nothing changed, or the mailbox
  -- of the recipient was opened alone.
  abbrev pub Files : (Message → Type 0) → Text → Conn → Result StoreError Message → Conn → Type 0
  Files P to s (ok m) t =
      P m
      × (m.to ≡ to)
      × Any (Houses m) (d.mailboxes t)
      × (view d t ≡ put m (open_box to (view d s)))
  Files P to s (err e) t = (view d t ≡ view d s) ⊎ (view d t ≡ open_box to (view d s))

  filed-Files :
      (P : Message → Type 0) (x : Message) (mb : Mailbox) (to : Text) (s t : Conn)
      (r : Result Fault Message) (w : Conn)
      → x.mailbox_id ≡ mb.id
      → x.to ≡ to
      → ((m : Message) → m ≡ record x { id = m.id } → P m)
      → Any (λ b. b ≡ mb) (d.mailboxes t) × (mb.address ≡ to)
      → view d t ≡ open_box to (view d s)
      → CreatedMessage d x t r w
      → Arrives d x t r w
      → Files P to s (filed d sv r) w
  unfolding filed
  filed-Files P x mb to s t (ok m) w i a content (found, at) opened (_, boxes, _) (g, f) =
      let same_id : m.mailbox_id ≡ mb.id = ap (λ (y : Message). y.mailbox_id) g ∙ i in
      let same_to : m.to ≡ to = ap (λ (y : Message). y.to) g ∙ a in
      (
        content m g,
        same_to,
        rw boxes (Any-Houses d laws sv m mb (d.mailboxes t) same_id (same_to ∙ sym at) found),
        f ∙ ap (put m) opened,
      )
  filed-Files P x mb to s t (err y) w i a content found opened c f = inr (f ∙ opened)

  file_under-Files :
      (P : Message → Type 0) (message : Mailbox → Message) (to : Text) (s : Conn)
      (r : Result Fault Mailbox) (t : Conn)
      → ((mb : Mailbox) → (message mb).mailbox_id ≡ mb.id)
      → ((mb : Mailbox) → (message mb).to ≡ to)
      → ((mb : Mailbox) (m : Message) → m ≡ record (message mb) { id = m.id } → P m)
      → Found d laws sv to r t
      → Provides d laws sv to (view d s) r (view d t)
      → let stored = file_under d sv message r t in Files P to s stored.0 stored.1
  unfolding file_under
  file_under-Files P message to s (err e) t ids tos content found h = inl h
  file_under-Files P message to s (ok mb) t ids tos content found (_, opened) =
      let law = laws.stored (message mb) t in
      filed-Files P (message mb) mb to s t _ _ (ids mb) (tos mb) (content mb) found opened law
        (Arrives-CreatedMessage d (message mb) t _ _ law)

  -- the fields of a mail, as they were read
  abbrev pub HoldsMail : Text → Envelope → Time → Message → Type 0
  HoldsMail raw env received m =
      (m.graph_id ≡ [])
      × (m.from ≡ trim_space (env.header (codes "From")))
      × (m.subject ≡ env.header (codes "Subject"))
      × (m.text_body ≡ env.text)
      × (m.html_body ≡ env.html)
      × (m.raw ≡ raw)
      × (m.received_at ≡ received)

  mail-HoldsMail :
      (raw : Text) (env : Envelope) (to : Text) (received : Time) (mb : Mailbox) (m : Message)
      → m ≡ record (mail_message d sv raw env to received mb) { id = m.id }
      → HoldsMail raw env received m
  mail-HoldsMail raw env to received mb m e = (
    ap (λ (y : Message). y.graph_id) e,
    ap (λ (y : Message). y.from) e,
    ap (λ (y : Message). y.subject) e,
    ap (λ (y : Message). y.text_body) e,
    ap (λ (y : Message). y.html_body) e,
    ap (λ (y : Message). y.raw) e,
    ap (λ (y : Message). y.received_at) e,
  )

  -- what becomes of a mail that is read in this way
  abbrev pub Handles :
      List Text
      → Text
      → Time
      → Conn
      → Result Text Envelope
      → Result StoreError Message × Conn
      → Type 0
  Handles domains raw received s (err e) (r, t) = (r ≡ err (bad_mime e)) × (t ≡ s)
  Handles domains raw received s (ok env) (r, t) =
      Files (HoldsMail raw env received) (find_recipient env domains) s r t
      × ((find_recipient env domains ≡ []) → (r ≡ err not_for_our_domain) × (t ≡ s))

  store_envelope-Files :
      (raw : Text) (env : Envelope) (to : Text) (now received : Time) (s : Conn)
      → let stored = store_envelope d sv raw env to now received s in
        Files (HoldsMail raw env received) to s stored.0 stored.1
        × ((to ≡ []) → (stored.0 ≡ err not_for_our_domain) × (stored.1 ≡ s))
  unfolding store_envelope find_or_create
  store_envelope-Files raw env [] now received s = (inl refl, λ e. (refl, refl))
  store_envelope-Files raw env (c ∷ to) now received s = (
    file_under-Files (HoldsMail raw env received) (mail_message d sv raw env (c ∷ to) received)
        (c ∷ to) s _ _ (λ mb. refl) (λ mb. refl) (mail-HoldsMail raw env (c ∷ to) received)
        (find_or_create_lem d laws sv (c ∷ to) now s).1
        (found_or_create-Provides d laws sv (c ∷ to) now s _ refl),
    λ e. absurd (cc e),
  )

  store_read-Handles :
      (domains : List Text) (raw : Text) (now received : Time) (s : Conn) (r : Result Text Envelope)
      → Handles domains raw received s r (store_read d sv domains raw now received s r)
  unfolding store_read
  store_read-Handles domains raw now received s (err e) = (refl, refl)
  store_read-Handles domains raw now received s (ok env) =
      store_envelope-Files raw env (find_recipient env domains) now received s

  -- In a database that meets IsRelational, a mail that is stored holds what was read; it is the one new message, at
  -- the end of the mailbox of the recipient that was found in it, which is opened if it is closed, and its row
  -- names the row of this mailbox. If it is not stored, nothing changes, or that mailbox alone is opened; and
  -- a mail that is not read, or for no address of the domains, changes nothing and has its own error.
  pub store_message-Handles :
      (domains : List Text) (raw : Text) (now received : Time) (s : Conn)
      → Handles domains raw received s
          (sv.read_envelope raw)
          (store_message d sv domains raw now received s)
  unfolding store_message
  store_message-Handles domains raw now received s =
      store_read-Handles domains raw now received s (sv.read_envelope raw)

  -- the fields of a Graph message, as they were fetched; the time is that of the call where it is not readable
  abbrev pub HoldsGraphMail : GraphMessage → Time → Message → Type 0
  HoldsGraphMail gm received m =
      (m.graph_id ≡ gm.id)
      × (m.subject ≡ gm.subject)
      × ((m.text_body, m.html_body) ≡ split_graph_body gm.body)
      × (m.raw ≡ [])
      × (m.received_at ≡ (elim (sv.parse_time gm.received_at) [ some t ↦ t | none ↦ received ]))

  -- the same of a Graph message; a repeated one is returned as none, and changes nothing
  abbrev pub FilesOnce :
      GraphMessage → Text → Time → Conn → Result StoreError (Option Message) → Conn → Type 0
  FilesOnce gm to received s (ok (some m)) t =
      (already_stored d sv gm.id s ≡ false) × Files (HoldsGraphMail gm received) to s (ok m) t
  FilesOnce gm to received s (ok none) t = (already_stored d sv gm.id s ≡ true) × (t ≡ s)
  FilesOnce gm to received s (err e) t = Files (HoldsGraphMail gm received) to s (err e) t
