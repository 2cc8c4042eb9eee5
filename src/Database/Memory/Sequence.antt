-- ===== src/Database/Memory/Sequence.antt =====
-- About the tables in memory: the identifiers of the mailboxes.
use tempmail.Prelude.{
  ap, ℕ, suc, ◌<◌, ◌≤◌, ◌≡◌, Bool, true, not, ◌||◌, ◌==◌, ==_iff, List, [], ◌∷◌, ◌++◌, All, Any,
  any, filter, arith, Bool-cases, inl, inr,
}
use tempmail.Models.{Mailbox, Message, ok}
use tempmail.Database.{IsSequenced, has_address, expired, received_before}
use tempmail.Database.Memory.{
  Tables, last_id, largest, has_id, delete_boxes, delete_mails, insert_box, insert_mail, memory,
}

largest-bound :
    {A : Type 0} (f : A → ℕ) (xs : List A) (k : ℕ) → largest f xs ≤ k → All (λ x. f x ≤ k) xs
largest-bound f [] k h = tt
largest-bound f (x ∷ xs) k h = (ground arith, largest-bound f xs k (ground arith))

any-Any :
    {A : Type 0} (f : A → ℕ) (k : ℕ) (xs : List A)
    → any (λ x. f x == k) xs ≡ true
    → Any (λ x. f x ≡ k) xs
any-Any f k [] h = cc h
any-Any f k (x ∷ xs) h = elim (Bool-cases (f x == k)) [
  | inl e ↦ inl ((==_iff (f x) k).0 e)
  | inr e ↦ inr (any-Any f k xs (rw e at h))
]

insert_mail-foreign :
    (m x : Message) (s : Tables)
    → (insert_mail m s).0 ≡ ok x
    → Any (λ b. b.id ≡ m.mailbox_id) s.boxes
insert_mail-foreign m x s h =
    elim (Bool-cases (s.broken || not (any (λ b. b.id == m.mailbox_id) s.boxes))) [
      | inl e ↦ absurd (ground arith)
      | inr e ↦ any-Any (λ (b : Mailbox). b.id) m.mailbox_id s.boxes (ground arith)
    ]

last-le-last_id : (s : Tables) → s.last ≤ last_id s
last-le-last_id s = ground arith

insert_box-grows : (mb : Mailbox) (s : Tables) → last_id s ≤ last_id (insert_box mb s).1
insert_box-grows mb s = elim (Bool-cases (s.broken || any (has_address mb.address) s.boxes)) [
  | inl e ↦ rw e (omega arith)
  | inr e ↦
      let b = record mb { id = suc (last_id s) } in
      rw e (omega (arith, last-le-last_id (record s { boxes = s.boxes ++ b ∷ []; last = b.id })))
]

insert_box-next :
    (mb : Mailbox) (s : Tables) (b : Mailbox) → (insert_box mb s).0 ≡ ok b → last_id s < b.id
insert_box-next mb s b h = elim (Bool-cases (s.broken || any (has_address mb.address) s.boxes)) [
  | inl e ↦ absurd (cc (rw e at h))
  | inr e ↦
      let same : record mb { id = suc (last_id s) } ≡ b = cc (rw e at h) in
      omega (arith, ap (λ (x : Mailbox). x.id) same)
]

delete_boxes-grows : (p : Mailbox → Bool) (s : Tables) → last_id s ≤ last_id (delete_boxes p s).1
delete_boxes-grows p s = elim (Bool-cases s.broken) [
  | inl e ↦ rw e (omega arith)
  | inr e ↦
      let rest = filter (λ b. not (p b)) s.boxes in
      rw e (omega (arith, last-le-last_id (record s { boxes = rest; last = last_id s })))
]

insert_mail-last_id : (m : Message) (s : Tables) → last_id s ≤ last_id (insert_mail m s).1
insert_mail-last_id m s =
    elim (Bool-cases (s.broken || not (any (λ b. b.id == m.mailbox_id) s.boxes))) [
      | inl e ↦ rw e (omega arith)
      | inr e ↦ rw e (omega arith)
    ]

delete_mails-last_id : (p : Message → Bool) (s : Tables) → last_id s ≤ last_id (delete_mails p s).1
delete_mails-last_id p s = elim (Bool-cases s.broken) [
  | inl e ↦ rw e (omega arith)
  | inr e ↦ rw e (omega arith)
]

-- They number the mailboxes as AUTOINCREMENT does.
pub memory-IsSequenced : IsSequenced memory last_id
memory-IsSequenced = record {
  bounded = λ s. largest-bound (λ (b : Mailbox). b.id) s.boxes (last_id s) (ground arith);
  created_next = insert_box-next;
  create_grows = insert_box-grows;
  delete_grows = λ a. delete_boxes-grows (has_address a);
  expire_grows = λ t. delete_boxes-grows (expired t);
  message_keeps = insert_mail-last_id;
  drop_keeps = λ id n s h. delete_mails-last_id (has_id id) s;
  age_keeps = λ t. delete_mails-last_id (received_before t);
  foreign = λ m s x. insert_mail-foreign m x s;
}
