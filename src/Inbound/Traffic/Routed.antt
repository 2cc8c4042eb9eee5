-- ===== src/Inbound/Traffic/Routed.antt =====
-- About storing messages at the same time: the tables after any interleaving of the statements.
use tempmail.Prelude.{
  ℕ, ◌≡◌, refl, sym, ap, subst, ◌∙◌, ◌==◌, ==_iff, if_elim, List, [], ◌∷◌, All, Any,
  Any-append_right, inl, inr,
}
use tempmail.Text.{Text, Unicode}
use tempmail.Models.{Time, Mailbox, Message, Result, ok, err}
use tempmail.Database.{
  Db, Fault, not_found, failed, IsRelational, IsSequenced, CreatedMailbox, CreatedMessage,
}
use tempmail.Inbound.{Services, auto_mailbox}
use tempmail.Routing.{IsRouted}
use tempmail.Routing.Statements.{
  Keeps, Keeps-CreatedMessage, Keeps-Unchanged, Keeps-create_mailbox, Keeps-delete_mailboxes,
  Keeps-delete_expired, Keeps-delete_old, Keeps-delete_message,
}
use tempmail.Inbound.Traffic.{
  Delivery, mail, graph, recipient, clock, Progress, checking, looking, creating, filing, skipped,
  finished, first_step, Statement, create_box, delete_box, delete_expired, delete_message,
  delete_old, IsNamed, message_of, looked, made, repeated, advance, execute, Traffic, stepped,
  Reach, here, store, other,
}
use tempmail.Inbound.Traffic.Kept.{
  Knows, KnowsStill, KnowsStill-create_mailbox, KnowsStill-create_message,
  KnowsStill-delete_mailboxes, KnowsStill-delete_expired, KnowsStill-delete_message,
  KnowsStill-delete_old, Knows-there,
}

Any-with :
    {A : Type 0} {P Q R : A → Type 0} (xs : List A)
    → ((x : A) → P x → Q x → R x)
    → Any P xs
    → All Q xs
    → Any R xs
Any-with [] f h k = absurd h
Any-with (x ∷ xs) f (inl h) k = inl (f x h k.0)
Any-with (x ∷ xs) f (inr h) k = inr (Any-with xs f h k.1)

module _ ⦃u : Unicode⦄ {Conn : Type 0} (d : Db Conn) (laws : IsRelational d) {last_id : Conn → ℕ}
    (seq : IsSequenced d last_id) (sv : Services) where
  -- what a place in StoreMessage says of the tables: the mailbox to file under is known, with the recipient's address
  abbrev Says : Text → Conn → Progress → Type 0
  Says to s (filing mb) = (mb.address ≡ to) × Knows laws seq mb s
  Says to s _ = Unit

  Says-still :
      (to : Text) (s t : Conn) (p : Progress) → KnowsStill laws seq s t → Says to s p → Says to t p
  Says-still to s t (filing mb) k (e, h) = (e, k mb h)
  Says-still to s t checking k h = tt
  Says-still to s t looking k h = tt
  Says-still to s t creating k h = tt
  Says-still to s t skipped k h = tt
  Says-still to s t (finished r) k h = tt

  to_lem : (job : Delivery) (mb : Mailbox) → (message_of d sv job mb).to ≡ recipient job
  unfolding message_of
  to_lem (mail raw env to now received) mb = refl
  to_lem (graph gm to now received) mb = refl

  id_lem : (job : Delivery) (mb : Mailbox) → (message_of d sv job mb).mailbox_id ≡ mb.id
  unfolding message_of
  id_lem (mail raw env to now received) mb = refl
  id_lem (graph gm to now received) mb = refl

  -- What a statement of a message does: the tables stay routed, what was known stays known, and the next place is
  -- right.
  abbrev Advances : Delivery → Conn → Progress × Conn → Type 0
  Advances job s r = Keeps d s r.1 × KnowsStill laws seq s r.1 × Says (recipient job) r.1 r.0

  looked-Says :
      (to : Text) (s : Conn) (r : Result Fault Mailbox)
      → IsRouted d s
      → d.first_mailbox to s ≡ r
      → Says to s (looked d sv r)
  unfolding looked
  looked-Says to s (ok mb) h e =
      let (there, address) = laws.first_ok to s mb e in
      (address, Knows-there laws seq mb s h.distinct_ids there)
  looked-Says to s (err not_found) h e = tt
  looked-Says to s (err (failed x)) h e = tt

  made-Says :
      (to : Text) (now : Time) (s : Conn) (r : Result Fault Mailbox) (t : Conn)
      → IsRouted d t
      → CreatedMailbox d (auto_mailbox d sv to now) s r t
      → Says to t (made d sv r)
  unfolding made
  made-Says to now s (ok b) t h (e, f, g, ids, addresses) =
      let there : Any (λ x. x ≡ b) (d.mailboxes t) =
        rw e (Any-append_right _ (d.mailboxes s) (b ∷ []) (inl refl)) in
      (ap (λ (x : Mailbox). x.address) g, Knows-there laws seq b t h.distinct_ids there)
  made-Says to now s (err x) t h u = tt

  -- A message is only created under a mailbox of its address.
  filed-Keeps :
      (job : Delivery) (mb : Mailbox) (s : Conn) (r : Result Fault Message) (t : Conn)
      → ((x : Message)
          → r ≡ ok x
          → Any (λ b. b.id ≡ (message_of d sv job mb).mailbox_id) (d.mailboxes s))
      → mb.address ≡ recipient job
      → Knows laws seq mb s
      → CreatedMessage d (message_of d sv job mb) s r t
      → Keeps d s t
  filed-Keeps job mb s (err x) t f e k u = Keeps-Unchanged d s t u
  filed-Keeps job mb s (ok x) t f e (given, alone) c =
      Keeps-CreatedMessage d (message_of d sv job mb) s (ok x) t
        (Any-with (d.mailboxes s)
          (λ b p q.
            let same : b.id ≡ mb.id = p ∙ id_lem job mb in (p, q same ∙ e ∙ sym (to_lem job mb)))
          (f x refl) alone)
        c

  advance-Advances :
      (job : Delivery) (p : Progress) (s : Conn)
      → IsRouted d s
      → Says (recipient job) s p
      → Advances job s (advance d sv job p s)
  unfolding advance
  advance-Advances job checking s h k =
      if_elim (λ (p : Progress). Advances job s (p, s)) (repeated d sv job s)
        (λ e. (λ x. x, λ mb x. x, tt)) (λ e. (λ x. x, λ mb x. x, tt))
  advance-Advances job looking s h k =
      (λ x. x, λ mb x. x, looked-Says (recipient job) s (d.first_mailbox (recipient job) s) h refl)
  advance-Advances job creating s h k =
      let mb = auto_mailbox d sv (recipient job) (clock job) in
      let routed = Keeps-create_mailbox laws mb s refl in
      (
        routed,
        KnowsStill-create_mailbox laws seq mb s,
        made-Says (recipient job) (clock job) s (d.create_mailbox mb s).0 (d.create_mailbox mb s).1
            (routed h) (laws.created mb s),
      )
  advance-Advances job (filing mb) s h (e, k) =
      let m = message_of d sv job mb in
      (
        filed-Keeps job mb s (d.create_message m s).0 (d.create_message m s).1 (seq.foreign m s) e k
            (laws.stored m s),
        KnowsStill-create_message laws seq m s,
        tt,
      )
  advance-Advances job skipped s h k = (λ x. x, λ mb x. x, tt)
  advance-Advances job (finished r) s h k = (λ x. x, λ mb x. x, tt)

  execute-Advances :
      (q : Statement) (s : Conn)
      → IsNamed q
      → Keeps d s (execute d sv q s) × KnowsStill laws seq s (execute d sv q s)
  unfolding execute
  execute-Advances (create_box mb) s n =
      (Keeps-create_mailbox laws mb s n, KnowsStill-create_mailbox laws seq mb s)
  execute-Advances (delete_box a) s n =
      (Keeps-delete_mailboxes laws a s, KnowsStill-delete_mailboxes laws seq a s)
  execute-Advances (delete_expired t) s n =
      (Keeps-delete_expired laws t s, KnowsStill-delete_expired laws seq t s)
  execute-Advances (delete_message id) s (n, h) =
      (Keeps-delete_message laws id n s h, KnowsStill-delete_message laws seq id n s h)
  execute-Advances (delete_old t) s n =
      (Keeps-delete_old laws t s, KnowsStill-delete_old laws seq t s)

  module _ (jobs : ℕ → Delivery) where
    -- The tables are routed, and each place is right.
    record Inv (s : Traffic Conn) : Type 0 where
      routed : IsRouted d s.conn
      places : (i : ℕ) → Says (recipient (jobs i)) s.conn (s.place i)

    first-Says : (job : Delivery) (s : Conn) → Says (recipient job) s (first_step job)
    first-Says (mail raw env to now received) s = tt
    first-Says (graph gm to now received) s = tt

    stepped-Inv : (i : ℕ) (s : Traffic Conn) → Inv s → Inv (stepped d sv jobs i s)
    unfolding stepped
    stepped-Inv i s h =
        let (keeps, still, right) =
          advance-Advances (jobs i) (s.place i) s.conn h.routed (h.places i) in
        let (p, t) = advance d sv (jobs i) (s.place i) s.conn in
        record {
          routed = keeps h.routed;
          places = λ j.
              if_elim (Says (recipient (jobs j)) t) (j == i)
                (λ e. subst (λ k. Says (recipient (jobs k)) t p) (sym ((==_iff j i).0 e)) right)
                (λ e. Says-still (recipient (jobs j)) s.conn t (s.place j) still (h.places j));
        }

    other-Inv :
        (q : Statement) (s : Traffic Conn)
        → IsNamed q
        → Inv s
        → Inv (record s { conn = execute d sv q s.conn })
    other-Inv q s n h =
        let (keeps, still) = execute-Advances q s.conn n in
        record {
          routed = keeps h.routed;
          places = λ j.
              Says-still (recipient (jobs j)) s.conn (execute d sv q s.conn) (s.place j) still
                (h.places j);
        }

    Reach-Inv : {c : Conn} {s : Traffic Conn} → IsRouted d c → Reach d sv jobs c s → Inv s
    Reach-Inv {c} h here = record { routed = h; places = λ i. first-Says (jobs i) c }
    Reach-Inv h (store i {s} r) = stepped-Inv i s (Reach-Inv h r)
    Reach-Inv h (other q {s} n r) = other-Inv q s n (Reach-Inv h r)

    -- In a database that meets IsRelational and IsSequenced, however the statements of any number of messages that
    -- are stored at the same time are interleaved with each other, with those by which other requests create and
    -- delete mailboxes and messages, and with those of the clean-up, routed tables stay routed at every moment,
    -- whichever statement fails. A mailbox that a request creates is named by its local part,
    -- and a message that it deletes by a number.
    pub Reach-IsRouted :
        {c : Conn} {s : Traffic Conn} → IsRouted d c → Reach d sv jobs c s → IsRouted d s.conn
    Reach-IsRouted h r = (Reach-Inv h r).routed
