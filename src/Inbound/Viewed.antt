-- ===== src/Inbound/Viewed.antt =====
-- About handlers/store.go and handlers/graph_store.go: what the abstract view is after a message is
-- stored, on each branch.
use tempmail.Prelude.{
  ◌≡◌, ◌∙◌, ◌⊎◌, refl, sym, ap, Option, none, some, List, [], ◌∷◌, Bool-cases, inl, inr,
}
use tempmail.Text.{Text, Unicode}
use tempmail.Models.{Time, Mailbox, Message, Result, ok, err}
use tempmail.Database.{Db, Fault, not_found, failed, IsRelational}
use tempmail.Recipient.{Envelope, GraphMessage, find_recipient, find_graph_recipient}
use tempmail.Inbound.{
  Services, StoreError, auto_mailbox, found_or_create, find_or_create, filed, file_under,
  mail_message, store_envelope, store_read, store_message, already_stored, graph_message, keep_some,
  store_graph_to, store_graph_message,
}
use tempmail.Mailroom.Tables.{View, open_box, put, open_box-opened}
use tempmail.Mailroom.Statements.{
  view, Opens, Opens-CreatedMailbox, Arrives, Arrives-CreatedMessage, boxes-held,
}

module _ ⦃u : Unicode⦄ {Conn : Type 0} (d : Db Conn) (laws : IsRelational d) (sv : Services) where
  -- the mailbox of an address, which is open from then on, or nothing happened
  abbrev pub Provides : Text → View → Result Fault Mailbox → View → Type 0
  Provides to v (ok mb) w = (mb.address ≡ to) × (w ≡ open_box to v)
  Provides to v (err e) w = w ≡ v

  Provides-Opens :
      (to : Text) (s : Conn) (r : Result Fault Mailbox) (t : Conn)
      → Opens d to s r t
      → Provides to (view d s) r (view d t)
  Provides-Opens to s (ok b) t (e, _, f) = (e, f)
  Provides-Opens to s (err x) t e = e

  pub found_or_create-Provides :
      (to : Text) (now : Time) (s : Conn) (r : Result Fault Mailbox)
      → d.first_mailbox to s ≡ r
      → let found = found_or_create d sv to now s r in
        Provides to (view d s) found.0 (view d found.1)
  unfolding found_or_create
  found_or_create-Provides to now s (ok mb) e =
      let (held, same_address) = laws.first_ok to s mb e in
      (same_address, sym (open_box-opened to (view d s) (boxes-held d to mb s held same_address)))
  found_or_create-Provides to now s (err not_found) e =
      let mb = auto_mailbox d sv to now in
      Provides-Opens to s _ _ (Opens-CreatedMailbox d mb s _ _ (laws.created mb s))
  found_or_create-Provides to now s (err (failed x)) e = refl

  -- what is stored arrives in the mailbox of its recipient, which is opened if it is closed
  abbrev pub Delivered : (Message → Type 0) → View → Result StoreError Message → View → Type 0
  Delivered P v (ok m) w = P m × (w ≡ put m (open_box m.to v))
  Delivered P v (err e) w = (w ≡ v) ⊎ ((a : Text) × (w ≡ open_box a v))

  filed-Delivered :
      (P : Message → Type 0) (x : Message) (to : Text) (s t : Conn) (r : Result Fault Message)
      (w : Conn)
      → x.to ≡ to
      → ((m : Message) → m ≡ record x { id = m.id } → P m)
      → view d t ≡ open_box to (view d s)
      → Arrives d x t r w
      → Delivered P (view d s) (filed d sv r) (view d w)
  unfolding filed
  filed-Delivered P x to s t (ok m) w e content opened (g, f) = (
    content m g,
    f
        ∙ ap (put m)
            (opened ∙ ap (λ a. open_box a (view d s)) (sym (ap (λ (y : Message). y.to) g ∙ e))),
  )
  filed-Delivered P x to s t (err y) w e content opened f = inr (to, f ∙ opened)

  file_under-Delivered :
      (P : Message → Type 0) (message : Mailbox → Message) (to : Text) (s : Conn)
      (r : Result Fault Mailbox) (t : Conn)
      → ((mb : Mailbox) → (message mb).to ≡ to)
      → ((mb : Mailbox) (m : Message) → m ≡ record (message mb) { id = m.id } → P m)
      → Provides to (view d s) r (view d t)
      → let filed = file_under d sv message r t in Delivered P (view d s) filed.0 (view d filed.1)
  unfolding file_under
  file_under-Delivered P message to s (err e) t tos content h = inl h
  file_under-Delivered P message to s (ok mb) t tos content (_, opened) =
      filed-Delivered P (message mb) to s t _ _ (tos mb) (content mb) opened
        (Arrives-CreatedMessage d (message mb) t _ _ (laws.stored (message mb) t))

  -- the mail that was read, for the recipient that is found in it
  abbrev pub IsMail : List Text → Text → Time → Message → Type 0
  IsMail domains raw received m =
      (env : Envelope) × (mb : Mailbox) × (sv.read_envelope raw ≡ ok env)
      × (m ≡ record (mail_message d sv raw env (find_recipient env domains) received mb) {
        id = m.id;
      })

  store_envelope-Delivered :
      (P : Message → Type 0) (raw : Text) (env : Envelope) (to : Text) (now received : Time)
      (s : Conn)
      → ((mb : Mailbox) (m : Message)
          → m ≡ record (mail_message d sv raw env to received mb) { id = m.id }
          → P m)
      → let stored = store_envelope d sv raw env to now received s in
        Delivered P (view d s) stored.0 (view d stored.1)
  unfolding store_envelope find_or_create
  store_envelope-Delivered P raw env [] now received s content = inl refl
  store_envelope-Delivered P raw env (c ∷ to) now received s content =
      file_under-Delivered P (mail_message d sv raw env (c ∷ to) received) (c ∷ to) s _ _
        (λ mb. refl) content (found_or_create-Provides (c ∷ to) now s _ refl)

  store_read-Delivered :
      (domains : List Text) (raw : Text) (now received : Time) (s : Conn) (r : Result Text Envelope)
      → sv.read_envelope raw ≡ r
      → let stored = store_read d sv domains raw now received s r in
        Delivered (IsMail domains raw received) (view d s) stored.0 (view d stored.1)
  unfolding store_read
  store_read-Delivered domains raw now received s (err e) h = inl refl
  store_read-Delivered domains raw now received s (ok env) h =
      store_envelope-Delivered (IsMail domains raw received) raw env (find_recipient env domains)
        now received s (λ mb m e. (env, mb, h, e))

  -- In a database that meets IsRelational, a mail that is stored arrives once in the mailbox of its
  -- recipient, which is opened if it is closed, and changes nothing else; and if it is not stored then
  -- nothing changes, or only a mailbox is opened.
  pub store_message-Delivered :
      (domains : List Text) (raw : Text) (now received : Time) (s : Conn)
      → let stored = store_message d sv domains raw now received s in
        Delivered (IsMail domains raw received) (view d s) stored.0 (view d stored.1)
  unfolding store_message
  store_message-Delivered domains raw now received s =
      store_read-Delivered domains raw now received s (sv.read_envelope raw) refl

  -- the same of a Graph message, which is not stored again
  abbrev pub DeliveredOnce :
      (Message → Type 0) → View → Result StoreError (Option Message) → View → Type 0
  DeliveredOnce P v (ok (some m)) w = Delivered P v (ok m) w
  DeliveredOnce P v (ok none) w = w ≡ v
  DeliveredOnce P v (err e) w = Delivered P v (err e) w

  keep_some-DeliveredOnce :
      (P : Message → Type 0) (v : View) (r : Result StoreError Message) (w : View)
      → Delivered P v r w
      → DeliveredOnce P v (keep_some d sv r) w
  unfolding keep_some
  keep_some-DeliveredOnce P v (ok m) w h = h
  keep_some-DeliveredOnce P v (err e) w h = h

  -- a Graph message, for the recipient that is found in it
  abbrev pub IsGraphMail : List Text → GraphMessage → Time → Message → Type 0
  IsGraphMail domains gm received m =
      (mb : Mailbox) × (m
        ≡ record (graph_message d sv gm (find_graph_recipient gm domains) received mb) {
          id = m.id;
        })

  store_graph_to-DeliveredOnce :
      (P : Message → Type 0) (gm : GraphMessage) (to : Text) (now received : Time) (s : Conn)
      → ((mb : Mailbox) (m : Message)
          → m ≡ record (graph_message d sv gm to received mb) { id = m.id }
          → P m)
      → let stored = store_graph_to d sv gm to now received s in
        DeliveredOnce P (view d s) stored.0 (view d stored.1)
  unfolding store_graph_to find_or_create graph_message
  store_graph_to-DeliveredOnce P gm [] now received s content = inl refl
  store_graph_to-DeliveredOnce P gm (c ∷ to) now received s content =
      elim (Bool-cases (already_stored d sv gm.id s)) [
        | inl e ↦ rw e refl
        | inr e ↦ rw e (
            keep_some-DeliveredOnce P (view d s) _ _ (
              file_under-Delivered P (graph_message d sv gm (c ∷ to) received) (c ∷ to) s _ _
                (λ mb. refl) content (found_or_create-Provides (c ∷ to) now s _ refl)))
      ]

  -- In a database that meets IsRelational, a Graph message that is stored arrives once in the mailbox of
  -- its recipient, which is opened if it is closed, and changes nothing else; a duplicate changes nothing;
  -- and if there is an error then nothing changes, or only a mailbox is opened.
  pub store_graph_message-DeliveredOnce :
      (domains : List Text) (gm : GraphMessage) (now received : Time) (s : Conn)
      → let stored = store_graph_message d sv domains gm now received s in
        DeliveredOnce (IsGraphMail domains gm received) (view d s) stored.0 (view d stored.1)
  unfolding store_graph_message
  store_graph_message-DeliveredOnce domains gm now received s =
      store_graph_to-DeliveredOnce (IsGraphMail domains gm received) gm
        (find_graph_recipient gm domains) now received s (λ mb m e. (mb, e))
