-- ===== src/Inbound/Traffic/Kept.antt =====
-- About storing messages at the same time: what a statement leaves of a mailbox that was found before it.
use tempmail.Prelude.{
  ◌==◌, ℕ, ◌≤◌, ◌<◌, ◌≡◌, ◌≢◌, refl, sym, ap, subst, Bool, not, Option, none, some, List, [], ◌∷◌,
  All, Any, All-map, All-append, All-filter, arith, inl, inr,
}
use tempmail.Text.{Text}
use tempmail.Models.{Time, Mailbox, Message, Result, ok, err}
use tempmail.Database.{
  IsNumber, Db, Fault, IsRelational, IsSequenced, CreatedMailbox, CreatedMessage, Deleted,
  DeletedMessages, has_address, expired, received_before,
}
use tempmail.Routing.{Distinct}

module _ {Conn : Type 0} {d : Db Conn} (laws : IsRelational d) {last_id : Conn → ℕ}
    (seq : IsSequenced d last_id) where
  -- The identifier of the mailbox was given, and no mailbox of the table has it but at the same address.
  abbrev pub Knows : Mailbox → Conn → Type 0
  Knows mb s =
      (mb.id ≤ last_id s) × All (λ b. b.id ≡ mb.id → b.address ≡ mb.address) (d.mailboxes s)

  abbrev pub KnowsStill : Conn → Conn → Type 0
  KnowsStill s t = (mb : Mailbox) → Knows mb s → Knows mb t

  same_boxes : (s t : Conn) → d.mailboxes t ≡ d.mailboxes s → last_id s ≤ last_id t → KnowsStill s t
  same_boxes s t e k mb (given, alone) = (omega arith, rw e alone)

  fewer_boxes :
      (p : Mailbox → Bool) (s : Conn) (r : Option Text) (n : ℕ) (t : Conn)
      → Deleted d p s r n t
      → last_id s ≤ last_id t
      → KnowsStill s t
  fewer_boxes p s none n t (e, _, _) k mb (given, alone) =
      (omega arith, rw e (All-filter _ (λ b. not (p b)) (d.mailboxes s) alone))
  fewer_boxes p s (some x) n t ((e, _), _) k mb h = same_boxes s t e k mb h

  fewer_messages :
      (p : Message → Bool) (s : Conn) (r : Option Text) (n : ℕ) (t : Conn)
      → DeletedMessages d p s r n t
      → last_id s ≤ last_id t
      → KnowsStill s t
  fewer_messages p s none n t (_, e, _) k = same_boxes s t e k
  fewer_messages p s (some x) n t ((e, _), _) k = same_boxes s t e k

  one_box_more :
      (mb : Mailbox) (s : Conn) (r : Result Fault Mailbox) (t : Conn)
      → ((b : Mailbox) → r ≡ ok b → last_id s < b.id)
      → CreatedMailbox d mb s r t
      → last_id s ≤ last_id t
      → KnowsStill s t
  one_box_more mb s (ok b) t next (e, _, _, _, _) k x (given, alone) =
      let new : last_id s < b.id = next b refl in
      (
        omega arith,
        rw e (All-append _ (d.mailboxes s) (b ∷ []) alone (λ q. absurd (omega arith), tt)),
      )
  one_box_more mb s (err f) t next (e, _) k x h = same_boxes s t e k x h

  one_message_more :
      (m : Message) (s : Conn) (r : Result Fault Message) (t : Conn)
      → CreatedMessage d m s r t
      → last_id s ≤ last_id t
      → KnowsStill s t
  one_message_more m s (ok x) t (_, e, _) k = same_boxes s t e k
  one_message_more m s (err f) t (e, _) k = same_boxes s t e k

  pub KnowsStill-create_mailbox : (mb : Mailbox) (s : Conn) → KnowsStill s (d.create_mailbox mb s).1
  KnowsStill-create_mailbox mb s =
      one_box_more mb s _ _ (seq.created_next mb s) (laws.created mb s) (seq.create_grows mb s)

  pub KnowsStill-create_message : (m : Message) (s : Conn) → KnowsStill s (d.create_message m s).1
  KnowsStill-create_message m s = one_message_more m s _ _ (laws.stored m s) (seq.message_keeps m s)

  pub KnowsStill-delete_mailboxes : (a : Text) (s : Conn) → KnowsStill s (d.delete_mailboxes a s).1
  KnowsStill-delete_mailboxes a s =
      fewer_boxes (has_address a) s _ _ _ (laws.deleted a s) (seq.delete_grows a s)

  pub KnowsStill-delete_expired : (t : Time) (s : Conn) → KnowsStill s (d.delete_expired t s).1
  KnowsStill-delete_expired t s =
      fewer_boxes (expired t) s _ _ _ (laws.purged t s) (seq.expire_grows t s)

  pub KnowsStill-delete_message :
      (id : Text) (n : ℕ) (s : Conn) → IsNumber id n → KnowsStill s (d.delete_message id s).1
  KnowsStill-delete_message id n s h =
      fewer_messages (λ m. m.id == n) s _ _ _ (laws.removed id n s h) (seq.drop_keeps id n s h)

  pub KnowsStill-delete_old : (t : Time) (s : Conn) → KnowsStill s (d.delete_old t s).1
  KnowsStill-delete_old t s =
      fewer_messages (received_before t) s _ _ _ (laws.aged t s) (seq.age_keeps t s)

  -- Of mailboxes with distinct identifiers, one that is there is the only one with its identifier.
  alone_of :
      (boxes : List Mailbox) (mb : Mailbox)
      → Distinct (λ (b : Mailbox). b.id) boxes
      → Any (λ b. b ≡ mb) boxes
      → All (λ b. b.id ≡ mb.id → b.address ≡ mb.address) boxes
  alone_of [] mb h a = absurd a
  alone_of (b ∷ boxes) mb h (inl e) = (
    λ q. ap (λ (x : Mailbox). x.address) e,
    All-map boxes (λ x ne q. absurd (ne (cc (q, e)))) h.0,
  )
  alone_of (b ∷ boxes) mb h (inr a) =
      (λ q. absurd (other_ids boxes (Any-here boxes a h.0) q), alone_of boxes mb h.1 a)
    where
      other_ids : (xs : List Mailbox) → mb.id ≢ b.id → b.id ≡ mb.id → ⊥
      other_ids xs ne q = ne (sym q)

      Any-here :
          (xs : List Mailbox) → Any (λ x. x ≡ mb) xs → All (λ x. x.id ≢ b.id) xs → mb.id ≢ b.id
      Any-here [] a k = absurd a
      Any-here (x ∷ xs) (inl e) k = λ q. k.0 (cc (q, e))
      Any-here (x ∷ xs) (inr a) k = Any-here xs a k.1

  -- A mailbox that is in the table is known.
  pub Knows-there :
      (mb : Mailbox) (s : Conn)
      → Distinct (λ (b : Mailbox). b.id) (d.mailboxes s)
      → Any (λ b. b ≡ mb) (d.mailboxes s)
      → Knows mb s
  Knows-there mb s h a = (given (d.mailboxes s) a (seq.bounded s), alone_of (d.mailboxes s) mb h a)
    where
      given :
          (xs : List Mailbox)
          → Any (λ x. x ≡ mb) xs
          → All (λ x. x.id ≤ last_id s) xs
          → mb.id ≤ last_id s
      given [] a k = absurd a
      given (x ∷ xs) (inl e) k = subst (λ (y : Mailbox). y.id ≤ last_id s) e k.0
      given (x ∷ xs) (inr a) k = given xs a k.1
