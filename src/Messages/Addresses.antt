-- ===== src/Messages/Addresses.antt =====
-- About handlers/message.go: the messages of a mailbox and its address.
use mathlib.Core.List.{Perm}
use tempmail.Prelude.{
  refl, map, filter, Bool, Bool-cases, ==_iff, ◌==◌, arith, subst, ◌≡◌, ◌∙◌, sym, ap, inl, inr,
  List, [], ◌∷◌, All, Any, All-map, Any-All,
}
use tempmail.Text.{Text, same}
use tempmail.Text.Laws.{same→≡, same_eq}
use tempmail.Models.{Mailbox, Message}
use tempmail.Database.{Db, without_raw, IsNewestFirst, Selected}
use tempmail.Routing.{Distinct, Houses, Routed, IsRouted}

-- Where the values of `f` are distinct, what holds of an element with the value of `a` holds of `a`.
Distinct-unique :
    {A B : Type 0} (f : A → B) (Q : A → Type 0) (xs : List A) (a : A)
    → Distinct f xs
    → Any (λ b. b ≡ a) xs
    → Any Q xs
    → ((b : A) → Q b → f b ≡ f a)
    → Q a
Distinct-unique f Q [] a d m q same = elim m [ ]
Distinct-unique f Q (x ∷ xs) a d (inl e) (inl q) same = subst Q e q
Distinct-unique f Q (x ∷ xs) a d (inl e) (inr q) same =
    let (b, qb, ne) = Any-All xs q d.0 in absurd (ne (same b qb ∙ ap f (sym e)))
Distinct-unique f Q (x ∷ xs) a d (inr m) (inl q) same =
    let (b, eb, ne) = Any-All xs m d.0 in absurd (ne (ap f eb ∙ sym (same x q)))
Distinct-unique f Q (x ∷ xs) a d (inr m) (inr q) same = Distinct-unique f Q xs a d.1 m q same

module _ {boxes : List Mailbox} {msgs : List Message} (h : Routed boxes msgs) where
  -- A message under the identifier of a mailbox was sent to the address of the mailbox.
  to-of_id :
      (mb : Mailbox) (x : Message)
      → Any (λ b. b ≡ mb) boxes
      → Any (Houses x) boxes
      → x.mailbox_id ≡ mb.id
      → x.to ≡ mb.address
  to-of_id mb x m q e =
      sym
        (Distinct-unique (λ (b : Mailbox). b.id) (Houses x) boxes mb h.distinct_ids m q
          (λ b k. k.0 ∙ e)).1

  -- A message that was sent to the address of a mailbox lies under its identifier.
  id-of_to :
      (mb : Mailbox) (x : Message)
      → Any (λ b. b ≡ mb) boxes
      → Any (Houses x) boxes
      → x.to ≡ mb.address
      → x.mailbox_id ≡ mb.id
  id-of_to mb x m q e =
      sym
        (Distinct-unique (λ (b : Mailbox). b.address) (Houses x) boxes mb h.distinct_addresses m q
          (λ b k. k.1 ∙ e)).0

-- The list `ms` has, without their sources, the messages to `address`, each once and the newest
-- first, and no others.
pub record Lists (address : Text) (msgs ms : List Message) : Type 0 where
  pub exact : Perm ms (map without_raw (filter (λ m. same m.to address) msgs))
  pub ordered : IsNewestFirst ms

pub filter-ext :
    (p q : Message → Bool) (xs : List Message) → All (λ x. p x ≡ q x) xs → filter p xs ≡ filter q xs
filter-ext p q [] h = refl
filter-ext p q (x ∷ xs) h = rw (h.0, filter-ext p q xs h.1)

-- The two ways to say that a message lies in a mailbox of the table, by identifier and by address.
pub same_mailbox :
    {boxes : List Mailbox} {msgs : List Message} (h : Routed boxes msgs) (mb : Mailbox)
    (x : Message)
    → Any (λ b. b ≡ mb) boxes
    → Any (Houses x) boxes
    → (x.mailbox_id == mb.id) ≡ same x.to mb.address
same_mailbox h mb x m house = elim (Bool-cases (x.mailbox_id == mb.id)) [
  | inl e ↦ e ∙ sym (same_eq (to-of_id h mb x m house ((==_iff x.mailbox_id mb.id).0 e)))
  | inr e ↦ elim (Bool-cases (same x.to mb.address)) [
    | inl k ↦ absurd (ground (arith, id-of_to h mb x m house (same→≡ x.to mb.address k)))
    | inr k ↦ e ∙ sym k
  ]
]

module _ {Conn : Type 0} (d : Db Conn) where
  -- The rows under the identifier of a mailbox of the table are those to its address.
  pub Selected-Lists :
      (mb : Mailbox) (s : Conn) (ms : List Message)
      → IsRouted d s
      → Any (λ b. b ≡ mb) (d.mailboxes s)
      → Selected mb.id (d.messages s) ms
      → Lists mb.address (d.messages s) ms
  Selected-Lists mb s ms h m (exact, ordered) = record {
    exact =
        subst (λ rows. Perm ms (map without_raw rows))
          (filter-ext _ _ (d.messages s)
            (All-map (d.messages s) (λ x. same_mailbox h mb x m) h.housed))
          exact;
    ordered = ordered;
  }
