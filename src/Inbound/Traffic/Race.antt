-- ===== src/Inbound/Traffic/Race.antt =====
-- About storing messages at the same time: two first messages to one address.
use tempmail.Prelude.{
  ℕ, ◌≡◌, ◌≢◌, refl, sym, ◌∙◌, subst, ◌==◌, ==_refl, ==_iff, false, [], ◌∷◌, Any, Any-append_right,
  Any-All, ap, arith, inl,
}
use tempmail.Text.{Unicode}
use tempmail.Models.{Mailbox, Result, ok, err}
use tempmail.Database.{Db, Fault, IsRelational, Unchanged, CreatedMailbox}
use tempmail.Inbound.{Services, database, auto_mailbox}
use tempmail.Inbound.Traffic.{
  Delivery, recipient, clock, creating, filing, finished, made, advance, Traffic, stepped,
}

module _ ⦃u : Unicode⦄ {Conn : Type 0} (d : Db Conn) (laws : IsRelational d) (sv : Services) where
  -- a creation that fails and changes nothing
  abbrev Refused : Conn → Result Fault Mailbox → Conn → Type 0
  Refused s r t = (e : Fault) × (r ≡ err e) × Unchanged d s t

  created-Refused :
      (mb : Mailbox) (s : Conn) (r : Result Fault Mailbox) (t : Conn)
      → Any (λ b. b.address ≡ mb.address) (d.mailboxes s)
      → CreatedMailbox d mb s r t
      → Refused s r t
  created-Refused mb s (ok b) t there (_, _, _, _, others) =
      let (x, same, other) = Any-All (d.mailboxes s) there others in absurd (other same)
  created-Refused mb s (err e) t there u = (e, refl, u)

  created-there :
      (mb b : Mailbox) (s : Conn) (r : Result Fault Mailbox) (t : Conn)
      → r ≡ ok b
      → CreatedMailbox d mb s r t
      → Any (λ x. x.address ≡ mb.address) (d.mailboxes t)
  created-there mb b s (ok x) t e (f, _, g, _, _) =
      rw f (Any-append_right _ (d.mailboxes s) (x ∷ []) (inl (ap (λ (y : Mailbox). y.address) g)))
  created-there mb b s (err x) t e u = absurd (cc e)

  made-filing : (r : Result Fault Mailbox) (mb : Mailbox) → made d sv r ≡ filing mb → r ≡ ok mb
  unfolding made
  made-filing (ok b) mb h = cc
  made-filing (err e) mb h = absurd (cc h)

  module _ (jobs : ℕ → Delivery) where
    create_for : ℕ → Conn → Result Fault Mailbox × Conn
    create_for k s = d.create_mailbox (auto_mailbox d sv (recipient (jobs k)) (clock (jobs k))) s

    place_other : (i j : ℕ) (s : Traffic Conn) → i ≢ j → (stepped d sv jobs i s).place j ≡ s.place j
    unfolding stepped
    place_other i j s ne =
        let other : (j == i) ≡ false = ground (arith, ==_iff j i, λ (e : j ≡ i). ne (sym e)) in
        rw other refl

    creating_step :
        (k : ℕ) (s : Traffic Conn)
        → s.place k ≡ creating
        → ((stepped d sv jobs k s).place k ≡ made d sv (create_for k s.conn).0)
          × ((stepped d sv jobs k s).conn ≡ (create_for k s.conn).1)
    unfolding stepped advance create_for
    creating_step k s e = (rw (==_refl k, e, advance) refl, rw (e, advance) refl)

    -- If two messages to one address have both found no mailbox, then once the first has created it, the next
    -- statement of the second fails and changes nothing, and StoreMessage returns its error: the second message is
    -- not stored, although its mailbox is there.
    pub stepped-twice :
        (i j : ℕ) (s : Traffic Conn) (mb : Mailbox)
        → i ≢ j
        → s.place i ≡ creating
        → s.place j ≡ creating
        → recipient (jobs i) ≡ recipient (jobs j)
        → (stepped d sv jobs i s).place i ≡ filing mb
        → (e : Fault) × ((stepped d sv jobs j (stepped d sv jobs i s)).place j
            ≡ finished (err (database e)))
          × Unchanged d
              (stepped d sv jobs i s).conn
              (stepped d sv jobs j (stepped d sv jobs i s)).conn
    unfolding create_for made
    stepped-twice i j s mb ne at_i at_j same held =
        let t = stepped d sv jobs i s in
        let (place_i, conn_i) = creating_step i s at_i in
        let (place_j, conn_j) = creating_step j t (place_other i j s ne ∙ at_j) in
        let there =
          created-there (auto_mailbox d sv (recipient (jobs i)) (clock (jobs i))) mb s.conn _ _
            (made-filing (create_for i s.conn).0 mb (sym place_i ∙ held)) (laws.created _ s.conn) in
        let (e, failed, unchanged) =
          created-Refused (auto_mailbox d sv (recipient (jobs j)) (clock (jobs j))) t.conn _ _
            (rw conn_i (
              subst (λ a. Any (λ b. b.address ≡ a) (d.mailboxes (create_for i s.conn).1)) same
                there))
            (laws.created _ t.conn) in
        (
          e,
          place_j ∙ ap (made d sv) failed,
          subst (λ x. Unchanged d t.conn x) (sym conn_j) unchanged,
        )
