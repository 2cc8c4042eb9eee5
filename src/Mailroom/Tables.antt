-- ===== src/Mailroom/Tables.antt =====
-- The abstract view of two lists of rows, and how rows that come and go change it.
use tempmail.Prelude.{
  ◌≡◌, ◌≢◌, refl, ap, ◌∙◌, inl, inr, Bool, true, false, not, ◌&&◌, ◌||◌, List, [], ◌∷◌, ◌++◌, All,
  Any, All-map, any, filter, Bool-cases, if◌then◌else◌, arith, ==_iff,
}
use tempmail.Text.{Text, same}
use tempmail.Text.Laws.{same→≡, same_comm}
use tempmail.Models.{Mailbox, Message}
use tempmail.Database.{has_address, owned}
use tempmail.Routing.{Distinct, Houses, Routed}
use tempmail.Messages.Addresses.{filter-ext, same_mailbox}

pub record View : Type 0 where
  pub boxes : Text → Bool
  pub inbox : Text → List Message

abbrev pub open_box : Text → View → View
open_box a v = record v { boxes = λ b. same a b || v.boxes b }

abbrev pub put : Message → View → View
put m v = record v { inbox = λ a. if same m.to a then v.inbox a ++ m ∷ [] else v.inbox a }

-- mailboxes go with their messages
abbrev pub close_boxes : (Text → Bool) → View → View
close_boxes closed v = record {
  boxes = λ a. not (closed a) && v.boxes a;
  inbox = λ a. if closed a then [] else v.inbox a;
}

abbrev pub drop : (Message → Bool) → View → View
drop q v = record v { inbox = λ a. filter (λ m. not (q m)) (v.inbox a) }

abbrev pub addressed : Text → Message → Bool
addressed a m = same m.to a

abbrev pub view_of : List Mailbox → List Message → View
view_of boxes msgs = record {
  boxes = λ a. any (has_address a) boxes;
  inbox = λ a. filter (addressed a) msgs;
}

View-ext :
    (v w : View)
    → ((a : Text) → v.boxes a ≡ w.boxes a)
    → ((a : Text) → v.inbox a ≡ w.inbox a)
    → v ≡ w
View-ext v w h k = λ i. record { boxes = λ a. h a i; inbox = λ a. k a i }

any-append :
    {A : Type 0} (p : A → Bool) (xs : List A) (x : A) → any p (xs ++ x ∷ []) ≡ (p x || any p xs)
any-append p [] x = refl
any-append p (y ∷ xs) x = ground (arith, any-append p xs x)

filter-append :
    {A : Type 0} (p : A → Bool) (xs : List A) (x : A)
    → filter p (xs ++ x ∷ []) ≡ (if p x then filter p xs ++ x ∷ [] else filter p xs)
filter-append p [] x = refl
filter-append p (y ∷ xs) x = ground (arith, filter-append p xs x)

filter_comm :
    {A : Type 0} (p q : A → Bool) (xs : List A) → filter p (filter q xs) ≡ filter q (filter p xs)
filter_comm p q [] = refl
filter_comm p q (x ∷ xs) = ground (arith, filter_comm p q xs)

pub view-mailbox :
    (boxes : List Mailbox) (msgs : List Message) (b : Mailbox)
    → view_of (boxes ++ b ∷ []) msgs ≡ open_box b.address (view_of boxes msgs)
view-mailbox boxes msgs b = View-ext _ _ (λ a. any-append (has_address a) boxes b) (λ a. refl)

pub view-message :
    (boxes : List Mailbox) (msgs : List Message) (m : Message)
    → view_of boxes (msgs ++ m ∷ []) ≡ put m (view_of boxes msgs)
view-message boxes msgs m = View-ext _ _ (λ a. refl) (λ a. filter-append (addressed a) msgs m)

pub view-filter :
    (q : Message → Bool) (boxes : List Mailbox) (msgs : List Message)
    → view_of boxes (filter (λ m. not (q m)) msgs) ≡ drop q (view_of boxes msgs)
view-filter q boxes msgs = View-ext _ _ (λ a. refl) (λ a. filter_comm (addressed a) _ msgs)

-- an address that a selection of mailboxes takes
abbrev pub closes : (Mailbox → Bool) → List Mailbox → Text → Bool
closes p boxes a = any (λ b. p b && same b.address a) boxes

any-ext :
    {A : Type 0} (p q : A → Bool) (xs : List A) → All (λ x. p x ≡ q x) xs → any p xs ≡ any q xs
any-ext p q [] h = refl
any-ext p q (x ∷ xs) h = rw (h.0, any-ext p q xs h.1)

members : {A : Type 0} (xs : List A) → All (λ x. Any (λ y. y ≡ x) xs) xs
members [] = tt
members (x ∷ xs) = (inl refl, All-map xs (λ y h. inr h) (members xs))

module _ {boxes : List Mailbox} {msgs : List Message} (h : Routed boxes msgs)
    (p : Mailbox → Bool) where
  owned-closes : (m : Message) → Any (Houses m) boxes → owned p boxes m ≡ closes p boxes m.to
  owned-closes m house = any-ext _ _ boxes (
      All-map boxes
        (λ b held. ground (
          arith,
          same_mailbox h b m held house,
          same_comm m.to b.address,
          ==_iff b.id m.mailbox_id,
          ==_iff m.mailbox_id b.id,
        ))
        (members boxes))

  closed_inbox :
      (f : Text → Bool) (a : Text) (ms : List Message)
      → filter (addressed a) (filter (λ m. not (f m.to)) ms)
        ≡ (if f a then [] else filter (addressed a) ms)
  closed_inbox f a [] = ground arith
  closed_inbox f a (m ∷ ms) = elim (Bool-cases (same m.to a)) [
    | inl e ↦
        let same_flag : f m.to ≡ f a = ap f (same→≡ m.to a e) in ground (arith, closed_inbox f a ms)
    | inr e ↦ ground (arith, closed_inbox f a ms)
  ]

not_elsewhere :
    (p : Mailbox → Bool) (a : Text) (b : Mailbox) (boxes : List Mailbox)
    → All (λ x. x.address ≢ b.address) boxes
    → same b.address a ≡ true
    → (any (has_address a) boxes ≡ false) × (closes p boxes a ≡ false)
not_elsewhere p a b [] h e = (refl, refl)
not_elsewhere p a b (x ∷ boxes) h e =
    ground (arith, not_elsewhere p a b boxes h.1 e, same→≡ x.address a, same→≡ b.address a)

-- The mailboxes that are left are those whose address is not closed.
left_open :
    (p : Mailbox → Bool) (a : Text) (boxes : List Mailbox)
    → Distinct (λ (b : Mailbox). b.address) boxes
    → any (has_address a) (filter (λ b. not (p b)) boxes)
      ≡ (not (closes p boxes a) && any (has_address a) boxes)
left_open p a [] d = refl
left_open p a (b ∷ boxes) d = elim (Bool-cases (same b.address a)) [
  | inl e ↦
      let (absent, kept) = not_elsewhere p a b boxes d.0 e in
      ground (arith, left_open p a boxes d.1)
  | inr e ↦ ground (arith, left_open p a boxes d.1)
]

-- Mailboxes that go take the messages to their addresses with them.
pub view-cascade :
    (p : Mailbox → Bool) (boxes : List Mailbox) (msgs : List Message)
    → Routed boxes msgs
    → view_of (filter (λ b. not (p b)) boxes) (filter (λ m. not (owned p boxes m)) msgs)
      ≡ close_boxes (closes p boxes) (view_of boxes msgs)
view-cascade p boxes msgs h =
    View-ext _ _ (λ a. left_open p a boxes h.distinct_addresses)
      (λ a.
        ap (filter (addressed a)) (
          filter-ext _ _ msgs
            (All-map msgs (λ m house. ap not (owned-closes h p m house)) h.housed))
        ∙ closed_inbox h p (closes p boxes) a msgs)

pub closes-address :
    (a b : Text) (boxes : List Mailbox)
    → closes (has_address a) boxes b ≡ (same a b && any (has_address a) boxes)
closes-address a b [] = ground arith
closes-address a b (x ∷ boxes) = elim (Bool-cases (same x.address a)) [
  | inl e ↦
      let same_flag : same x.address b ≡ same a b = ap (λ t. same t b) (same→≡ x.address a e) in
      ground (arith, closes-address a b boxes)
  | inr e ↦ ground (arith, closes-address a b boxes)
]

pub open_box-opened : (a : Text) (v : View) → v.boxes a ≡ true → open_box a v ≡ v
open_box-opened a v e =
    View-ext _ _
      (λ b. elim (Bool-cases (same a b)) [
        | inl k ↦ let same_flag : v.boxes a ≡ v.boxes b = ap v.boxes (same→≡ a b k) in ground arith
        | inr k ↦ ground arith
      ])
      (λ b. refl)

pub close_boxes-ext :
    (f g : Text → Bool) (v : View) → ((a : Text) → f a ≡ g a) → close_boxes f v ≡ close_boxes g v
close_boxes-ext f g v h = ap (λ k. close_boxes k v) (λ i. λ a. h a i)

pub close_boxes-none :
    (f : Text → Bool) (v : View) → ((a : Text) → f a ≡ false) → close_boxes f v ≡ v
close_boxes-none f v h = close_boxes-ext f (λ a. false) v h
