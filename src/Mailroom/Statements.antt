-- ===== src/Mailroom/Statements.antt =====
-- The abstract view after each statement that the program issues.
use mathlib.Core.Bool.{Bool-set}
use mathlib.Core.List.{Perm, foldr}
use mathlib.Core.List.Perm
use tempmail.Prelude.{
  ℕ, ◌≡◌, ◌≢◌, ◌⊎◌, ◌∙◌, refl, sym, ap, Bool, true, false, not, ◌||◌, none, List, [], ◌∷◌, Any, any,
  All, Bool-cases, inl, inr, arith, filter, length,
}
use tempmail.Text.{Text, same}
use tempmail.Text.Laws.{same_eq, same_iff}
use tempmail.Models.{Mailbox, Message, Result, ok, err}
use tempmail.Database.{
  Db, Fault, Unchanged, CreatedMailbox, CreatedMessage, Deleted, DeletedMessages, has_address,
}
use tempmail.Routing.{IsRouted}
use tempmail.Mailroom.Tables.{
  View, addressed, open_box, put, close_boxes, drop, view_of, view-mailbox, view-message,
  view-filter, view-cascade, closes, closes-address, close_boxes-none, close_boxes-ext,
}

any-member :
    (a : Text) (mb : Mailbox) (boxes : List Mailbox)
    → Any (λ b. b ≡ mb) boxes
    → mb.address ≡ a
    → any (has_address a) boxes ≡ true
any-member a mb [] h e = elim h [ ]
any-member a mb (b ∷ boxes) (inl h) e =
    let same_address : b.address ≡ mb.address = ap (λ (x : Mailbox). x.address) h in
    ground (arith, same_eq (same_address ∙ e))
any-member a mb (b ∷ boxes) (inr h) e = ground (arith, any-member a mb boxes h e)

any-length :
    (p : Mailbox → Bool) (boxes : List Mailbox)
    → ((length (filter p boxes) ≡ 0) → any p boxes ≡ false)
      × ((any p boxes ≡ false) → length (filter p boxes) ≡ 0)
any-length p [] = (λ e. refl, λ e. refl)
any-length p (b ∷ boxes) =
    (λ e. ground (arith, any-length p boxes), λ e. ground (arith, any-length p boxes))

filter-none :
    (p : Message → Bool) (ms : List Message)
    → length (filter p ms) ≡ 0
    → filter (λ m. not (p m)) ms ≡ ms
filter-none p [] e = refl
filter-none p (m ∷ ms) e = ground (arith, filter-none p ms)

any-absent :
    (a : Text) (boxes : List Mailbox)
    → All (λ b. b.address ≢ a) boxes
    → any (has_address a) boxes ≡ false
any-absent a [] h = refl
any-absent a (b ∷ boxes) h = ground (arith, any-absent a boxes h.1, same_iff b.address a, h.0)

-- `any` as a fold, which does not see the order of a list
foldr-any :
    (p : Mailbox → Bool) (xs : List Mailbox) → foldr (λ x acc. p x || acc) false xs ≡ any p xs
foldr-any p [] = refl
foldr-any p (x ∷ xs) = ap (λ b. p x || b) (foldr-any p xs)

or_comm : (p q r : Bool) → (p || (q || r)) ≡ (q || (p || r))
or_comm p q r = ground arith

pub any-perm : (p : Mailbox → Bool) (xs ys : List Mailbox) → Perm xs ys → any p xs ≡ any p ys
any-perm p xs ys perm =
    sym (foldr-any p xs)
    ∙ Perm.foldr-eq Bool-set (λ x acc. p x || acc) (λ x y acc. or_comm (p x) (p y) acc) perm false
    ∙ foldr-any p ys

-- A message lies with the address that it was sent to.
pub Any-addressed :
    (m : Message) (ms : List Message)
    → Any (λ x. x ≡ m) ms
    → Any (λ x. x ≡ m) (filter (addressed m.to) ms)
Any-addressed m [] h = elim h [ ]
Any-addressed m (x ∷ ms) (inl e) = rw (same_eq (ap (λ (y : Message). y.to) e)) (inl e)
Any-addressed m (x ∷ ms) (inr h) = elim (Bool-cases (same x.to m.to)) [
  | inl e ↦ rw e (inr (Any-addressed m ms h))
  | inr e ↦ rw e (Any-addressed m ms h)
]

module _ {Conn : Type 0} (d : Db Conn) where
  abbrev pub view : Conn → View
  view s = view_of (d.mailboxes s) (d.messages s)

  pub view-Unchanged : (s t : Conn) → Unchanged d s t → view t ≡ view s
  view-Unchanged s t (e, f) = rw (e, f) refl

  -- A mailbox that the table has is open.
  pub boxes-held :
      (a : Text) (mb : Mailbox) (s : Conn)
      → Any (λ b. b ≡ mb) (d.mailboxes s)
      → mb.address ≡ a
      → (view s).boxes a ≡ true
  boxes-held a mb s h e = any-member a mb (d.mailboxes s) h e

  -- Where no mailbox has the address, it is closed.
  pub boxes-absent :
      (a : Text) (s : Conn) → All (λ b. b.address ≢ a) (d.mailboxes s) → (view s).boxes a ≡ false
  boxes-absent a s h = any-absent a (d.mailboxes s) h

  -- a statement that creates a mailbox: the address was closed and is open, or nothing changes
  abbrev pub Opens : Text → Conn → Result Fault Mailbox → Conn → Type 0
  Opens a s (ok b) t = (b.address ≡ a) × ((view s).boxes a ≡ false) × (view t ≡ open_box a (view s))
  Opens a s (err e) t = view t ≡ view s

  pub Opens-CreatedMailbox :
      (mb : Mailbox) (s : Conn) (r : Result Fault Mailbox) (t : Conn)
      → CreatedMailbox d mb s r t
      → Opens mb.address s r t
  Opens-CreatedMailbox mb s (ok b) t (e, f, g, ids, addresses) =
      let same_address : b.address ≡ mb.address = ap (λ (x : Mailbox). x.address) g in
      (
        same_address,
        boxes-absent mb.address s addresses,
        rw (e, f)
            (view-mailbox (d.mailboxes s) (d.messages s) b
              ∙ ap (λ a. open_box a (view s)) same_address),
      )
  Opens-CreatedMailbox mb s (err e) t u = view-Unchanged s t u

  -- a statement that stores a message: it arrives with the number of its row, or nothing changes
  abbrev pub Arrives : Message → Conn → Result Fault Message → Conn → Type 0
  Arrives m s (ok x) t = (x ≡ record m { id = x.id }) × (view t ≡ put x (view s))
  Arrives m s (err e) t = view t ≡ view s

  pub Arrives-CreatedMessage :
      (m : Message) (s : Conn) (r : Result Fault Message) (t : Conn)
      → CreatedMessage d m s r t
      → Arrives m s r t
  Arrives-CreatedMessage m s (ok x) t (e, f, g) =
      (g, rw (e, f) (view-message (d.mailboxes s) (d.messages s) x))
  Arrives-CreatedMessage m s (err e) t u = view-Unchanged s t u

  -- a statement that deletes all the mailboxes of a kind
  pub view-Purged :
      (p : Mailbox → Bool) (s : Conn) (n : ℕ) (t : Conn)
      → IsRouted d s
      → Deleted d p s none n t
      → view t ≡ close_boxes (closes p (d.mailboxes s)) (view s)
  view-Purged p s n t h (e, f, g) = rw (e, f) (view-cascade p (d.mailboxes s) (d.messages s) h)

  -- a statement that deletes the mailbox of an address, by the number of rows that it took
  abbrev pub Closes : Text → Conn → ℕ → Conn → Type 0
  Closes a s n t =
      ((n ≡ 0) × ((view s).boxes a ≡ false) × (view t ≡ view s))
      ⊎ ((n ≢ 0) × ((view s).boxes a ≡ true) × (view t ≡ close_boxes (same a) (view s)))

  pub Closes-Deleted :
      (a : Text) (s : Conn) (n : ℕ) (t : Conn)
      → IsRouted d s
      → Deleted d (has_address a) s none n t
      → Closes a s n t
  Closes-Deleted a s n t h del =
      let count = any-length (has_address a) (d.mailboxes s) in
      let gone = view-Purged (has_address a) s n t h del in
      elim (Bool-cases ((view s).boxes a)) [
        | inl e ↦ inr (
          λ z. ground (arith, count.0 (sym del.2 ∙ z)),
          e,
          gone
              ∙ close_boxes-ext (closes (has_address a) (d.mailboxes s)) (same a) (view s)
                  (λ b. ground (arith, closes-address a b (d.mailboxes s))),
        )
        | inr e ↦ inl (
          del.2 ∙ count.1 e,
          e,
          gone
              ∙ close_boxes-none (closes (has_address a) (d.mailboxes s)) (view s)
                  (λ b. ground (arith, closes-address a b (d.mailboxes s))),
        )
      ]

  -- a statement that deletes messages, by the number of rows that it took
  pub view-DeletedMessages :
      (q : Message → Bool) (s : Conn) (n : ℕ) (t : Conn)
      → DeletedMessages d q s none n t
      → (view t ≡ drop q (view s)) × ((n ≡ 0) → view t ≡ view s)
  view-DeletedMessages q s n t (e, f, g) = (
    rw (e, f) (view-filter q (d.mailboxes s) (d.messages s)),
    λ z. rw (e, f, filter-none q (d.messages s) (sym g ∙ z)) refl,
  )
