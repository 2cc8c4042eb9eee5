-- ===== src/Messages/Viewed.antt =====
-- About handlers/message.go: the abstract view after each handler, and its answer.
use tempmail.Prelude.{
  ◌≢◌, ◌∙◌, All, All-map, All-filter, filter, length, false, arith, ◌≡◌, ◌⊎◌, refl, sym, subst, inl,
  inr, ℕ, Bool, true, Option, none, some, List, [], ◌∷◌, Any, Bool-cases, Any-append_right, ◌==◌,
  ==_iff,
}
use tempmail.Text.{Text, Unicode, to_lower}
use tempmail.Models.{Time, Mailbox, Message, Result, ok, err}
use tempmail.Database.{
  IsNumber, Db, Fault, not_found, failed, IsRelational, CreatedMailbox, DeletedMessages,
}
use tempmail.Inbound.{local_part, new_mailbox}
use tempmail.Http.{Response, message_list, reply, fault_text}
use tempmail.Routing.{IsRouted}
use tempmail.Routing.Statements.{Keeps-create_mailbox}
use tempmail.Messages.{
  MessageHandler, is_configured_address, reply_messages, reply_retried, reply_created, reply_absent,
  reply_found, list_messages, detail_reply, get_message, delete_message_reply, delete_message,
}
use tempmail.Messages.Addresses.{Selected-Lists}
use tempmail.Mailroom.Tables.{addressed, View, open_box, open_box-opened}
use tempmail.Mailroom.Contract.{Lacks, Shows, Browses, Discards, Inspects}
use tempmail.Mailroom.Statements.{
  Any-addressed, view, Opens-CreatedMailbox, boxes-held, boxes-absent, view-Unchanged,
  view-DeletedMessages,
}

module _ ⦃u : Unicode⦄ (h : MessageHandler) {Conn : Type 0} (d : Db Conn)
    (laws : IsRelational d) where
  -- the errors of the query for messages, and of the look-up and the creation of a mailbox
  abbrev pub ReadFails : Conn → Type 0
  ReadFails s = (i : ℕ) × (e : Fault) × (d.find_messages i s ≡ err e)

  abbrev pub OpenFails : Text → Conn → Text → Type 0
  OpenFails a s e =
      (d.first_mailbox a s ≡ err (failed e))
      ⊎ ((mb : Mailbox) × (x : Fault) × ((d.create_mailbox mb s).0 ≡ err x)
          × (mb.address ≡ a)
          × (e ≡ fault_text x))

  shown :
      (mb : Mailbox) (a : Text) (s : Conn) (r : Result Fault (List Message))
      → IsRouted d s
      → Any (λ b. b ≡ mb) (d.mailboxes s)
      → mb.address ≡ a
      → d.find_messages mb.id s ≡ r
      → (ms : List Message) × ((reply_messages h d mb s).0 ≡ reply 200 (message_list ms))
        × (((ms ≡ []) × ReadFails s) ⊎ Shows a (view d s) ms)
  unfolding reply_messages
  shown mb a s (err e) k held same q = ([], rw q refl, inl (refl, (mb.id, e, q)))
  shown mb a s (ok ms) k held same q =
      let lists = Selected-Lists d mb s ms k held (laws.listed mb.id s ms q) in
      (ms, rw q refl, inr (subst (λ b. Shows b (view d s) ms) same (lists.exact, lists.ordered)))

  reply_messages-Browses :
      (F : Text → Type 0) (mb : Mailbox) (a : Text) (v : View) (s : Conn)
      → IsRouted d s
      → Any (λ b. b ≡ mb) (d.mailboxes s)
      → mb.address ≡ a
      → (v.boxes a ≡ true) ⊎ (is_configured_address h a ≡ true)
      → view d s ≡ open_box a v
      → let done = reply_messages h d mb s in
        Browses (is_configured_address h a) a F (ReadFails done.1) v done.0 (view d done.1)
  unfolding reply_messages
  reply_messages-Browses F mb a v s k held same allowed e =
      let (ms, r, list) = shown mb a s _ k held same refl in inl (ms, r, list, allowed, e)

  -- a mailbox that the table has
  reply_held-Browses :
      (F : Text → Type 0) (mb : Mailbox) (a : Text) (s : Conn)
      → IsRouted d s
      → d.first_mailbox a s ≡ ok mb
      → let done = reply_messages h d mb s in
        Browses (is_configured_address h a) a F (ReadFails done.1) (view d s) done.0 (view d done.1)
  reply_held-Browses F mb a s k q =
      let (held, same) = laws.first_ok a s mb q in
      let is_open = boxes-held d a mb s held same in
      reply_messages-Browses F mb a (view d s) s k held same (inl is_open)
        (sym (open_box-opened a (view d s) is_open))

  reply_retried-Browses :
      (F : Text → Type 0) (a : Text) (x : Fault) (s : Conn) (r : Result Fault Mailbox)
      → F (fault_text x)
      → IsRouted d s
      → d.first_mailbox a s ≡ r
      → let done = reply_retried h d a x s in
        Browses (is_configured_address h a) a F (ReadFails done.1) (view d s) done.0 (view d done.1)
  unfolding reply_retried
  reply_retried-Browses F a x s (ok mb) f k q =
      rw (q, reply_retried) (reply_held-Browses F mb a s k q)
  reply_retried-Browses F a x s (err y) f k q =
      rw (q, reply_retried) (inr (inr (fault_text x, f, refl, refl)))

  reply_created-Browses :
      (now : Time) (a : Text) (s : Conn) (r : Result Fault Mailbox) (t : Conn)
      → IsRouted d s
      → IsRouted d t
      → is_configured_address h a ≡ true
      → (d.create_mailbox (new_mailbox a (local_part a) now) s).0 ≡ r
      → CreatedMailbox d (new_mailbox a (local_part a) now) s r t
      → let done = reply_created h d a r t in
        Browses
          (is_configured_address h a)
          a
          (OpenFails a s)
          (ReadFails done.1)
          (view d s)
          done.0
          (view d done.1)
  unfolding reply_created
  reply_created-Browses now a s (ok b) t k l e q c =
      let (same, closed, opened) =
        Opens-CreatedMailbox d (new_mailbox a (local_part a) now) s (ok b) t c in
      reply_messages-Browses (OpenFails a s) b a (view d s) t l
        (rw c.0 (Any-append_right _ (d.mailboxes s) (b ∷ []) (inl refl))) same (inr e) opened
  reply_created-Browses now a s (err x) t k l e q c =
      subst
        (λ v.
          Browses (is_configured_address h a) a (OpenFails a s)
            (ReadFails (reply_retried h d a x t).1) v (reply_retried h d a x t).0
            (view d (reply_retried h d a x t).1))
        (view-Unchanged d s t c)
        (reply_retried-Browses (OpenFails a s) a x t _
          (inr (new_mailbox a (local_part a) now, x, q, refl, refl)) l refl)

  module _ (next_year : Time → Time) where
    reply_absent-Browses :
        (a : Text) (now : Time) (s : Conn)
        → IsRouted d s
        → d.first_mailbox a s ≡ err not_found
        → let done = reply_absent h d next_year a now s in
          Browses
            (is_configured_address h a)
            a
            (OpenFails a s)
            (ReadFails done.1)
            (view d s)
            done.0
            (view d done.1)
    unfolding reply_absent
    reply_absent-Browses a now s k q = elim (Bool-cases (is_configured_address h a)) [
      | inl e ↦
          let mb = new_mailbox a (local_part a) (next_year now) in
          subst
            (λ (done : Response × Conn).
              Browses (is_configured_address h a) a (OpenFails a s) (ReadFails done.1) (view d s)
                done.0 (view d done.1))
            (rw e refl)
            (reply_created-Browses (next_year now) a s _ _ k (Keeps-create_mailbox laws mb s refl k)
              e refl (laws.created mb s))
      | inr e ↦ rw e (inr (inl (refl, boxes-absent d a s (laws.first_absent a s q), refl, refl)))
    ]

    reply_found-Browses :
        (a : Text) (now : Time) (s : Conn) (r : Result Fault Mailbox)
        → IsRouted d s
        → d.first_mailbox a s ≡ r
        → let done = reply_found h d next_year a now s r in
          Browses
            (is_configured_address h a)
            a
            (OpenFails a s)
            (ReadFails done.1)
            (view d s)
            done.0
            (view d done.1)
    unfolding reply_found
    reply_found-Browses a now s (ok mb) k q = reply_held-Browses (OpenFails a s) mb a s k q
    reply_found-Browses a now s (err not_found) k q = reply_absent-Browses a now s k q
    reply_found-Browses a now s (err (failed e)) k q = inr (inr (e, inl q, refl, refl))

    pub list_messages-Browses :
        (sync : Conn → Conn) (param : Text) (now : Time) (s : Conn)
        → IsRouted d (sync s)
        → let done = list_messages h d next_year sync param now s in
          Browses
            (is_configured_address h (to_lower param))
            (to_lower param)
            (OpenFails (to_lower param) (sync s))
            (ReadFails done.1)
            (view d (sync s))
            done.0
            (view d done.1)
    unfolding list_messages
    list_messages-Browses sync param now s k =
        reply_found-Browses (to_lower param) now (sync s) _ k refl

-- A selection that takes no row takes none that is there; and one that takes a row takes one that is there.
unselected :
    (q : Message → Bool) (ms : List Message) → length (filter q ms) ≡ 0 → All (λ m. q m ≡ false) ms
unselected q [] h = tt
unselected q (m ∷ ms) h = (ground arith, unselected q ms (ground arith))

selected :
    (q : Message → Bool) (ms : List Message)
    → length (filter q ms) ≢ 0
    → (m : Message) × Any (λ x. x ≡ m) ms × (q m ≡ true)
selected q [] h = absurd (h refl)
selected q (m ∷ ms) h = elim (Bool-cases (q m)) [
  | inl e ↦ (m, inl refl, e)
  | inr e ↦ let (x, held, hit) = selected q ms (λ z. ground (arith, h)) in (x, inr held, hit)
]

module _ {Conn : Type 0} (d : Db Conn) (laws : IsRelational d) where
  -- the errors of the query and of the deletion
  abbrev pub LookFails : Text → Conn → Type 0
  LookFails id s = (e : Text) × ((d.first_message id s).0 ≡ err (failed e))

  abbrev pub DropFails : Text → Conn → Type 0
  DropFails id s = (e : Text) × ((d.delete_message id s).0.error ≡ some e)

  All-Lacks : (n : ℕ) (s : Conn) → All (λ m. m.id ≢ n) (d.messages s) → Lacks n (view d s)
  All-Lacks n s h a = All-filter (λ m. m.id ≢ n) (addressed a) (d.messages s) h

  detail_reply-Inspects :
      (id : Text) (n : ℕ) (s : Conn) (r : Result Fault Message)
      → IsNumber id n
      → (d.first_message id s).0 ≡ r
      → Inspects n (LookFails id s) (view d s) (detail_reply d r) (view d s)
  unfolding detail_reply
  detail_reply-Inspects id n s (ok m) h e =
      let (held, same) = laws.message_ok id n s m h e in
      (inl (m, refl, same, Any-addressed m (d.messages s) held), refl)
  detail_reply-Inspects id n s (err not_found) h e =
      (inr (inl (refl, All-Lacks n s (laws.message_absent id n s h e))), refl)
  detail_reply-Inspects id n s (err (failed x)) h e = (inr (inr (refl, (x, e))), refl)

  pub get_message-Inspects :
      (sync : Conn → Conn) (id : Text) (n : ℕ) (s : Conn)
      → IsNumber id n
      → let done = get_message d sync id s in
        Inspects n (LookFails id (sync s)) (view d (sync s)) done.0 (view d done.1)
  unfolding get_message
  get_message-Inspects sync id n s h =
      rw (laws.message_read id n (sync s) h) (detail_reply-Inspects id n (sync s) _ h refl)

  delete_message_reply-Discards :
      (id : Text) (n : ℕ) (s : Conn) (e : Option Text) (k : ℕ) (t : Conn)
      → (d.delete_message id s).0.error ≡ e
      → DeletedMessages d (λ m. m.id == n) s e k t
      → Discards id n
          (DropFails id s)
          (view d s)
          (delete_message_reply d id (record { error = e; rows_affected = k }))
          (view d t)
  unfolding delete_message_reply
  delete_message_reply-Discards id n s none k t q del =
      let (dropped, same) = view-DeletedMessages d (λ m. m.id == n) s k t del in
      elim (Bool-cases (k == 0)) [
        | inl e ↦
            let none_there =
              unselected (λ m. m.id == n) (d.messages s) (sym del.2 ∙ (==_iff k 0).0 e) in
            rw e (
              inr (
                refl,
                inl (
                    All-Lacks n s (
                      All-map (d.messages s) (λ m miss z. ground (arith, ==_iff m.id n, z))
                        none_there)),
                same ((==_iff k 0).0 e),
              ))
        | inr e ↦
            let (m, held, hit) =
              selected (λ m. m.id == n) (d.messages s)
                (λ z. ground (arith, ==_iff k 0, del.2 ∙ z)) in
            rw e
              (inl (refl, (m, Any-addressed m (d.messages s) held, (==_iff m.id n).0 hit), dropped))
      ]
  delete_message_reply-Discards id n s (some x) k t q (same, z) =
      rw z (inr (refl, inr (x, q), view-Unchanged d s t same))

  pub delete_message-Discards :
      (id : Text) (n : ℕ) (s : Conn)
      → IsNumber id n
      → let done = delete_message d id s in
        Discards id n (DropFails id s) (view d s) done.0 (view d done.1)
  unfolding delete_message
  delete_message-Discards id n s h =
      delete_message_reply-Discards id n s _ _ _ refl (laws.removed id n s h)
