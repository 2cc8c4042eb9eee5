-- ===== src/Routing/Tables.antt =====
-- About the two tables: the invariant over their rows, and rows that are added and removed.
use tempmail.Prelude.{
  ◌≡◌, ◌≢◌, sym, inl, inr, Bool, false, not, List, [], ◌∷◌, ◌++◌, arith, ==_iff, Bool-cases, All,
  Any, filter, All-append, All-map, All-filter, Any-append_left,
}
use tempmail.Models.{Mailbox, Message}
use tempmail.Database.{owned}
use tempmail.Inbound.{local_part}

-- no two elements have one value of `f`
abbrev pub Distinct : {A B : Type 0} → (A → B) → List A → Type 0
Distinct f [] = Unit {0}
Distinct f (x ∷ xs) = All (λ y. f y ≢ f x) xs × Distinct f xs

-- the mailbox of a message, by identifier and by address
abbrev pub Houses : Message → Mailbox → Type 0
Houses m b = (b.id ≡ m.mailbox_id) × (b.address ≡ m.to)

pub record Routed (boxes : List Mailbox) (msgs : List Message) : Type 0 where
  pub housed : All (λ m. Any (Houses m) boxes) msgs
  pub named : All (λ b. b.name ≡ local_part b.address) boxes
  pub distinct_ids : Distinct (λ (b : Mailbox). b.id) boxes
  pub distinct_addresses : Distinct (λ (b : Mailbox). b.address) boxes

module _ {A B : Type 0} (f : A → B) where
  Distinct-append :
      (xs : List A) (x : A) → Distinct f xs → All (λ y. f y ≢ f x) xs → Distinct f (xs ++ x ∷ [])
  Distinct-append [] x d h = (tt, tt)
  Distinct-append (y ∷ xs) x d h =
      (All-append _ xs (x ∷ []) d.0 (λ e. h.0 (sym e), tt), Distinct-append xs x d.1 h.1)

  Distinct-filter : (p : A → Bool) (xs : List A) → Distinct f xs → Distinct f (filter p xs)
  Distinct-filter p [] d = tt
  Distinct-filter p (x ∷ xs) d = elim (Bool-cases (p x)) [
    | inl e ↦ rw e (All-filter _ p xs d.0, Distinct-filter p xs d.1)
    | inr e ↦ rw e (Distinct-filter p xs d.1)
  ]

-- One more mailbox, of a new identifier and a new address.
pub Routed-mailbox :
    (boxes : List Mailbox) (msgs : List Message) (b : Mailbox)
    → b.name ≡ local_part b.address
    → All (λ x. x.id ≢ b.id) boxes
    → All (λ x. x.address ≢ b.address) boxes
    → Routed boxes msgs
    → Routed (boxes ++ b ∷ []) msgs
Routed-mailbox boxes msgs b name ids addresses h = record {
  housed = All-map msgs (λ m. Any-append_left (Houses m) boxes (b ∷ [])) h.housed;
  named = All-append _ boxes (b ∷ []) h.named (name, tt);
  distinct_ids = Distinct-append (λ (x : Mailbox). x.id) boxes b h.distinct_ids ids;
  distinct_addresses =
      Distinct-append (λ (x : Mailbox). x.address) boxes b h.distinct_addresses addresses;
}

-- One more message, that a mailbox houses.
pub Routed-message :
    (boxes : List Mailbox) (msgs : List Message) (m : Message)
    → Any (Houses m) boxes
    → Routed boxes msgs
    → Routed boxes (msgs ++ m ∷ [])
Routed-message boxes msgs m house h = record {
  housed = All-append _ msgs (m ∷ []) h.housed (house, tt);
  named = h.named;
  distinct_ids = h.distinct_ids;
  distinct_addresses = h.distinct_addresses;
}

-- Fewer messages.
pub Routed-filter :
    (p : Message → Bool) (boxes : List Mailbox) (msgs : List Message)
    → Routed boxes msgs
    → Routed boxes (filter p msgs)
Routed-filter p boxes msgs h = record {
  housed = All-filter _ p msgs h.housed;
  named = h.named;
  distinct_ids = h.distinct_ids;
  distinct_addresses = h.distinct_addresses;
}

module _ (p : Mailbox → Bool) (m : Message) where
  -- The mailbox of a message that no removed mailbox owns is not removed.
  Any-filter :
      (boxes : List Mailbox)
      → Any (Houses m) boxes
      → owned p boxes m ≡ false
      → Any (Houses m) (filter (λ b. not (p b)) boxes)
  Any-filter [] h o = h
  Any-filter (b ∷ boxes) (inl h) o = elim (Bool-cases (p b)) [
    | inl e ↦ ground (arith, h.0, ==_iff b.id m.mailbox_id)
    | inr e ↦ rw e (inl h)
  ]
  Any-filter (b ∷ boxes) (inr h) o = elim (Bool-cases (p b)) [
    | inl e ↦ rw e (Any-filter boxes h (ground arith))
    | inr e ↦ rw e (inr (Any-filter boxes h (ground arith)))
  ]

All-cascade :
    (p : Mailbox → Bool) (boxes : List Mailbox) (msgs : List Message)
    → All (λ m. Any (Houses m) boxes) msgs
    → All
        (λ m. Any (Houses m) (filter (λ b. not (p b)) boxes))
        (filter (λ m. not (owned p boxes m)) msgs)
All-cascade p boxes [] h = tt
All-cascade p boxes (m ∷ msgs) h = elim (Bool-cases (owned p boxes m)) [
  | inl e ↦ rw e (All-cascade p boxes msgs h.1)
  | inr e ↦ rw e (Any-filter p m boxes h.0 e, All-cascade p boxes msgs h.1)
]

-- Fewer mailboxes, and with them their messages.
pub Routed-cascade :
    (p : Mailbox → Bool) (boxes : List Mailbox) (msgs : List Message)
    → Routed boxes msgs
    → Routed (filter (λ b. not (p b)) boxes) (filter (λ m. not (owned p boxes m)) msgs)
Routed-cascade p boxes msgs h = record {
  housed = All-cascade p boxes msgs h.housed;
  named = All-filter _ (λ b. not (p b)) boxes h.named;
  distinct_ids = Distinct-filter (λ (b : Mailbox). b.id) (λ b. not (p b)) boxes h.distinct_ids;
  distinct_addresses =
      Distinct-filter (λ (b : Mailbox). b.address) (λ b. not (p b)) boxes h.distinct_addresses;
}
