-- ===== src/Mailboxes/Viewed.antt =====
-- About handlers/email.go: the abstract view after each handler and each clean-up, and its answer.
use tempmail.Prelude.{
  if◌then◌else◌, subst, [], ℕ, ap, sym, ◌∙◌, ◌≡◌, ◌⊎◌, refl, inl, inr, Bool, true, false, Option,
  none, some, List, Bool-cases, ◌==◌, ==_iff, arith,
}
use tempmail.Prelude.Int.{ℤ, pos, ◌-ℤ◌, ◌+ℤ◌, ltb_ℤ, leb_ℤ}
use tempmail.Text.{Text, Unicode, same, to_lower, codes}
use tempmail.Models.{Time, Mailbox, Message, Result, ok, err}
use tempmail.Database.{
  Db, Fault, not_found, failed, IsRelational, CreatedMailbox, Deleted, DeletedMessages, has_address,
  expired, received_before,
}
use tempmail.Http.{Response, error, fault_text, reply}
use tempmail.Routing.{IsRouted}
use tempmail.Mailboxes.{
  EmailHandler, CreateMailboxRequest, resolve_address, requested_mailbox, is_taken, register,
  register_resolved, create_mailbox, create_reply, ttl, hours, list_mailboxes, mailbox_reply,
  get_mailbox, delete_reply, delete_mailbox, cleanup_expired, cleanup_old_messages,
}
use tempmail.Messages.Addresses.{Selected-Lists}
use tempmail.Mailroom.Tables.{View, open_box, close_boxes, drop, closes}
use tempmail.Mailroom.Contract.{Creates, Deletes, Shows, ListsBoxes, Visits}
use tempmail.Mailroom.Statements.{
  boxes-held, boxes-absent, any-perm, view, Opens-CreatedMailbox, Closes-Deleted, view-Unchanged,
  view-Purged, view-DeletedMessages,
}

module _ ⦃u : Unicode⦄ {Conn : Type 0} (d : Db Conn) (laws : IsRelational d) where
  module _ (h : EmailHandler) (req : CreateMailboxRequest) where
    -- a mailbox of the name and address that the request resolves to, which expires after the hours that it asks
    -- for, or those of the service
    abbrev pub IsRequested : Text → Text → Time → Mailbox → Type 0
    IsRequested uuid sub now mb =
        (resolve_address h req uuid sub ≡ ok (mb.name, mb.address))
        × (mb.expires_at
            ≡ (now +ℤ hours (if ltb_ℤ (pos 0) req.ttl_hours then req.ttl_hours else h.ttl_hours)))

    -- The request does not resolve to an address; or the address is taken; or the creation fails.
    abbrev pub IsRejection : Text → Text → Time → Conn → Response → Type 0
    IsRejection uuid sub now s r =
        (resolve_address h req uuid sub ≡ err r)
        ⊎ ((name : Text) × (address : Text) × (resolve_address h req uuid sub ≡ ok (name, address))
            × (((r ≡ reply 409 (error (codes "address already exists")))
                  × (is_taken h req d address s ≡ true))
                ⊎ ((e : Fault) × ((d.create_mailbox (requested_mailbox h req name address now) s).0
                      ≡ err e)
                    × (r ≡ reply 500 (error (fault_text e))))))

    create_reply-Creates :
        (uuid sub name address : Text) (now : Time) (s : Conn) (r : Result Fault Mailbox) (t : Conn)
        → resolve_address h req uuid sub ≡ ok (name, address)
        → (d.create_mailbox (requested_mailbox h req name address now) s).0 ≡ r
        → CreatedMailbox d (requested_mailbox h req name address now) s r t
        → Creates
            (IsRequested uuid sub now)
            (IsRejection uuid sub now s)
            (view d s)
            (create_reply h req d r)
            (view d t)
    unfolding create_reply requested_mailbox ttl
    create_reply-Creates uuid sub name address now s (ok b) t q k c =
        let (same, closed, opened) =
          Opens-CreatedMailbox d (requested_mailbox h req name address now) s (ok b) t c in
        inl (
          b,
          refl,
          (
            q ∙ sym (ap (λ (x : Mailbox). ok (x.name, x.address)) c.2),
            ap (λ (x : Mailbox). x.expires_at) c.2,
          ),
          ap (view d s).boxes same ∙ closed,
          opened ∙ ap (λ x. open_box x (view d s)) (sym same),
        )
    create_reply-Creates uuid sub name address now s (err x) t q k c =
        inr (view-Unchanged d s t c, inr (name, address, q, inr (x, k, refl)))

    register-Creates :
        (uuid sub name address : Text) (now : Time) (s : Conn)
        → resolve_address h req uuid sub ≡ ok (name, address)
        → let done = register h req d name address now s in
          Creates
            (IsRequested uuid sub now)
            (IsRejection uuid sub now s)
            (view d s)
            done.0
            (view d done.1)
    unfolding register
    register-Creates uuid sub name address now s q =
        elim (Bool-cases (is_taken h req d address s)) [
          | inl taken ↦ rw taken (inr (refl, inr (name, address, q, inl (refl, taken))))
          | inr free ↦
              let mb = requested_mailbox h req name address now in
              rw free
                (create_reply-Creates uuid sub name address now s _ _ q refl (laws.created mb s))
        ]

    register_resolved-Creates :
        (uuid sub : Text) (r : Result Response (Text × Text)) (now : Time) (s : Conn)
        → resolve_address h req uuid sub ≡ r
        → let done = register_resolved h req d r now s in
          Creates
            (IsRequested uuid sub now)
            (IsRejection uuid sub now s)
            (view d s)
            done.0
            (view d done.1)
    unfolding register_resolved
    register_resolved-Creates uuid sub (err refusal) now s q = inr (refl, inl q)
    register_resolved-Creates uuid sub (ok (name, address)) now s q =
        register-Creates uuid sub name address now s q

    pub create_mailbox-Creates :
        (uuid sub : Text) (now : Time) (s : Conn)
        → let done = create_mailbox h req d uuid sub now s in
          Creates
            (IsRequested uuid sub now)
            (IsRejection uuid sub now s)
            (view d s)
            done.0
            (view d done.1)
    unfolding create_mailbox
    create_mailbox-Creates uuid sub now s = register_resolved-Creates uuid sub _ now s refl

  -- the error of the deletion
  abbrev pub DeleteFails : Text → Conn → Text → Type 0
  DeleteFails a s e = (d.delete_mailboxes a s).0.error ≡ some e

  delete_reply-Deletes :
      (a : Text) (s : Conn) (e : Option Text) (n : ℕ) (t : Conn)
      → IsRouted d s
      → (d.delete_mailboxes a s).0.error ≡ e
      → Deleted d (has_address a) s e n t
      → Deletes a
          (DeleteFails a s)
          (view d s)
          (delete_reply d a (record { error = e; rows_affected = n }))
          (view d t)
  unfolding delete_reply
  delete_reply-Deletes a s none n t k q del = elim (Closes-Deleted d a s n t k del) [
    | inl (z, closed, e) ↦ rw z (inr (inl (refl, closed, e)))
    | inr (z, opened, e) ↦
        let some_rows : (n == 0) ≡ false = ground (arith, ==_iff n 0, z) in
        rw some_rows (inl (refl, opened, e))
  ]
  delete_reply-Deletes a s (some x) n t k q (same, _) =
      inr (inr (x, q, refl, view-Unchanged d s t same))

  pub delete_mailbox-Deletes :
      (param : Text) (s : Conn)
      → IsRouted d s
      → let done = delete_mailbox d param s in
        Deletes (to_lower param) (DeleteFails (to_lower param) s) (view d s) done.0 (view d done.1)
  unfolding delete_mailbox
  delete_mailbox-Deletes param s k =
      delete_reply-Deletes (to_lower param) s _ _ _ k refl (laws.deleted (to_lower param) s)

module _ ⦃u : Unicode⦄ {Conn : Type 0} (d : Db Conn) (laws : IsRelational d) where
  -- the errors of the two queries
  abbrev pub ListFails : Conn → Type 0
  ListFails s = (e : Fault) × (d.find_mailboxes s ≡ err e)

  abbrev pub LoadFails : Text → Conn → Text → Type 0
  LoadFails a s e = d.load_mailbox a s ≡ err (failed e)

  listed_boxes :
      (s : Conn) (r : Result Fault (List Mailbox))
      → d.find_mailboxes s ≡ r
      → ListsBoxes (ListFails s) (view d s) (list_mailboxes d s).0 (view d s)
  unfolding list_mailboxes
  listed_boxes s (ok boxes) e = (
    (
      boxes,
      rw e refl,
      inr (λ a. any-perm (has_address a) boxes (d.mailboxes s) (laws.all_listed s boxes e)),
    ),
    refl,
  )
  listed_boxes s (err x) e = (([], rw e refl, inl (refl, (x, e))), refl)

  pub list_mailboxes-ListsBoxes :
      (s : Conn)
      → let done = list_mailboxes d s in ListsBoxes (ListFails s) (view d s) done.0 (view d done.1)
  unfolding list_mailboxes
  list_mailboxes-ListsBoxes s = listed_boxes s _ refl

  mailbox_reply-Visits :
      (a : Text) (s : Conn) (r : Result Fault (Mailbox × List Message))
      → IsRouted d s
      → d.load_mailbox a s ≡ r
      → Visits a (LoadFails a s) (view d s) (mailbox_reply d r) (view d s)
  unfolding mailbox_reply
  mailbox_reply-Visits a s (ok (mb, ms)) k e =
      let (held, same, rows) = laws.loaded a s mb ms e in
      let lists = Selected-Lists d mb s ms k held rows in
      (
        inl (
          mb,
          ms,
          refl,
          same,
          boxes-held d a mb s held same,
          subst (λ b. Shows b (view d s) ms) same (lists.exact, lists.ordered),
        ),
        refl,
      )
  mailbox_reply-Visits a s (err not_found) k e =
      (inr (inl (refl, boxes-absent d a s (laws.load_absent a s e))), refl)
  mailbox_reply-Visits a s (err (failed x)) k e = (inr (inr (x, e, refl)), refl)

  pub get_mailbox-Visits :
      (sync : Conn → Conn) (param : Text) (s : Conn)
      → IsRouted d (sync s)
      → let done = get_mailbox d sync param s in
        Visits
          (to_lower param)
          (LoadFails (to_lower param) (sync s))
          (view d (sync s))
          done.0
          (view d done.1)
  unfolding get_mailbox
  get_mailbox-Visits sync param s k = mailbox_reply-Visits (to_lower param) (sync s) _ k refl

-- The expired mailboxes go with their messages; or the deletion returns an error, and nothing changes.
abbrev pub Expires : {Conn : Type 0} → Db Conn → Time → Conn → View → Type 0
Expires d now s w =
    (((d.delete_expired now s).0.error ≡ none)
      × (w ≡ close_boxes (closes (expired now) (d.mailboxes s)) (view d s)))
    ⊎ ((e : Text) × ((d.delete_expired now s).0.error ≡ some e) × (w ≡ view d s))

-- The messages that are older than a positive age go, or the deletion returns an error and nothing changes; and
-- nothing changes where the age is not positive.
abbrev pub Ages : {Conn : Type 0} → Db Conn → ℤ → Time → Conn → View → Type 0
Ages d age now s w =
    ((leb_ℤ age (pos 0) ≡ false)
      × ((((d.delete_old (now -ℤ age) s).0.error ≡ none)
            × (w ≡ drop (received_before (now -ℤ age)) (view d s)))
          ⊎ ((e : Text) × ((d.delete_old (now -ℤ age) s).0.error ≡ some e) × (w ≡ view d s))))
    ⊎ ((leb_ℤ age (pos 0) ≡ true) × (w ≡ view d s))

module _ {Conn : Type 0} (d : Db Conn) (laws : IsRelational d) where
  Deleted-Expires :
      (now : Time) (s : Conn) (e : Option Text) (n : ℕ) (t : Conn)
      → IsRouted d s
      → (d.delete_expired now s).0.error ≡ e
      → Deleted d (expired now) s e n t
      → Expires d now s (view d t)
  Deleted-Expires now s none n t k q del = inl (q, view-Purged d (expired now) s n t k del)
  Deleted-Expires now s (some x) n t k q (same, _) = inr (x, q, view-Unchanged d s t same)

  pub cleanup_expired-Expires :
      (now : Time) (s : Conn) → IsRouted d s → Expires d now s (view d (cleanup_expired d now s).1)
  unfolding cleanup_expired
  cleanup_expired-Expires now s k = Deleted-Expires now s _ _ _ k refl (laws.purged now s)

  dropped_or_kept :
      (failure : Option Text) (q : Message → Bool) (s : Conn) (e : Option Text) (n : ℕ) (t : Conn)
      → failure ≡ e
      → DeletedMessages d q s e n t
      → ((failure ≡ none) × (view d t ≡ drop q (view d s)))
        ⊎ ((x : Text) × (failure ≡ some x) × (view d t ≡ view d s))
  dropped_or_kept failure q s none n t h del = inl (h, (view-DeletedMessages d q s n t del).0)
  dropped_or_kept failure q s (some x) n t h (same, _) = inr (x, h, view-Unchanged d s t same)

  pub cleanup_old_messages-Ages :
      (age : ℤ) (now : Time) (s : Conn)
      → Ages d age now s (view d (cleanup_old_messages d age now s).1)
  unfolding cleanup_old_messages
  cleanup_old_messages-Ages age now s = elim (Bool-cases (leb_ℤ age (pos 0))) [
    | inl e ↦ rw e (inr (refl, refl))
    | inr e ↦ rw e (
        inl (
          refl,
          dropped_or_kept _ (received_before (now -ℤ age)) s _ _ _ refl (laws.aged (now -ℤ age) s),
        ))
  ]
