-- ===== src/Database/Memory/Laws.antt =====
-- About the tables in memory, and the laws of the interface.
use mathlib.Core.List.{Perm}
use mathlib.Core.List.Perm
use tempmail.Prelude.Int.{ltb_ℤ, ◌≤ℤ◌}
use tempmail.Prelude.{
  ==_iff, sym, none, some, ap, subst, if_elim, ℕ, ◌<◌, ◌≡◌, ◌≢◌, refl, Bool, true, false, not, ◌||◌,
  ◌==◌, List, [], ◌∷◌, All, Any, All-map, any, arith, Bool-cases, inl, inr,
}
use tempmail.Text.{Text}
use tempmail.Text.Laws.{same→≡, same_eq}
use tempmail.Models.{Time, Result, Mailbox, Message, ok, err}
use tempmail.Database.{
  IsNumber, Fault, not_found, IsRelational, has_address, expired, received_before, rows_of,
  IsNewestFirst, Selected, CreatedMailbox, CreatedMessage, Deleted, DeletedMessages,
}
use tempmail.Database.Memory.{
  Tables, largest, first_with, has_id, delete_boxes, delete_mails, insert_box, insert_mail,
  mails_of, place, newest_first, with_mails, memory, steady,
}

fresh_from :
    {A : Type 0} (f : A → ℕ) (xs : List A) (k : ℕ) → largest f xs < k → All (λ x. f x ≢ k) xs
fresh_from f [] k h = tt
fresh_from f (x ∷ xs) k h = (ground arith, fresh_from f xs k (ground arith))

first_with_ok :
    {A : Type 0} (p : A → Bool) (xs : List A) (y : A)
    → first_with p xs ≡ ok y
    → Any (λ x. x ≡ y) xs × (p y ≡ true)
first_with_ok p [] y h = cc
first_with_ok p (x ∷ xs) y h = elim (Bool-cases (p x)) [
  | inl e ↦ (inl (ground arith), ground arith)
  | inr e ↦ let (a, b) = first_with_ok p xs y (ground arith) in (inr a, b)
]

first_with_absent :
    {A : Type 0} (p : A → Bool) (xs : List A)
    → first_with p xs ≡ err not_found
    → All (λ x. p x ≡ false) xs
first_with_absent p [] h = tt
first_with_absent p (x ∷ xs) h = elim (Bool-cases (p x)) [
  | inl e ↦ ground arith
  | inr e ↦ (e, first_with_absent p xs (ground arith))
]

any-false : {A : Type 0} (p : A → Bool) (xs : List A) → any p xs ≡ false → All (λ x. p x ≡ false) xs
any-false p [] h = tt
any-false p (x ∷ xs) h = (ground arith, any-false p xs (ground arith))

other_address : (a : Text) (b : Mailbox) → has_address a b ≡ false → b.address ≢ a
other_address a b h e = cc (h, same_eq e)

place-perm : (m : Message) (xs : List Message) → Perm (place m xs) (m ∷ xs)
place-perm m [] = Perm.rfl
place-perm m (x ∷ xs) =
    if_elim (λ ys. Perm ys (m ∷ x ∷ xs)) (ltb_ℤ m.received_at x.received_at)
      (λ e. Perm.trans (Perm.cons x (place-perm m xs)) (Perm.swap m x xs)) (λ e. Perm.rfl)

newest_first-perm : (xs : List Message) → Perm (newest_first xs) xs
newest_first-perm [] = Perm.rfl
newest_first-perm (x ∷ xs) =
    Perm.trans (place-perm x (newest_first xs)) (Perm.cons x (newest_first-perm xs))

-- no row of the list is newer than the instant
abbrev IsUpTo : Time → List Message → Type 0
IsUpTo t xs = All (λ x. x.received_at ≤ℤ t) xs

place-IsUpTo :
    (t : Time) (m : Message) (xs : List Message)
    → m.received_at ≤ℤ t
    → IsUpTo t xs
    → IsUpTo t (place m xs)
place-IsUpTo t m [] h k = (h, tt)
place-IsUpTo t m (x ∷ xs) h k =
    if_elim (IsUpTo t) (ltb_ℤ m.received_at x.received_at) (λ e. (k.0, place-IsUpTo t m xs h k.1))
      (λ e. (h, k))

place-IsNewestFirst :
    (m : Message) (xs : List Message) → IsNewestFirst xs → IsNewestFirst (place m xs)
place-IsNewestFirst m [] h = (tt, tt)
place-IsNewestFirst m (x ∷ xs) h =
    if_elim IsNewestFirst (ltb_ℤ m.received_at x.received_at)
      (λ e. (place-IsUpTo x.received_at m xs (ground arith) h.0, place-IsNewestFirst m xs h.1))
      (λ e.
        let later : x.received_at ≤ℤ m.received_at = ground arith in
        ((later, All-map xs (λ y k. omega arith) h.0), h))

newest_first-IsNewestFirst : (xs : List Message) → IsNewestFirst (newest_first xs)
newest_first-IsNewestFirst [] = tt
newest_first-IsNewestFirst (x ∷ xs) =
    place-IsNewestFirst x (newest_first xs) (newest_first-IsNewestFirst xs)

mails_of-Selected : (i : ℕ) (mails ms : List Message) → ms ≡ mails_of i mails → Selected i mails ms
mails_of-Selected i mails ms e =
    rw e (newest_first-perm (rows_of i mails), newest_first-IsNewestFirst (rows_of i mails))

insert_box_lem :
    (mb : Mailbox) (s : Tables) → CreatedMailbox memory mb s (insert_box mb s).0 (insert_box mb s).1
insert_box_lem mb s = elim (Bool-cases (s.broken || any (has_address mb.address) s.boxes)) [
  | inl e ↦ rw e (refl, refl)
  | inr e ↦ rw e (
    refl,
    refl,
    refl,
    fresh_from (λ (x : Mailbox). x.id) s.boxes _ (ground arith),
    All-map s.boxes (other_address mb.address)
        (any-false (has_address mb.address) s.boxes (ground arith)),
  )
]

delete_boxes_lem :
    (p : Mailbox → Bool) (s : Tables)
    → Deleted memory p s
        (delete_boxes p s).0.error
        (delete_boxes p s).0.rows_affected
        (delete_boxes p s).1
delete_boxes_lem p s = elim (Bool-cases s.broken) [
  | inl e ↦ rw e ((refl, refl), refl)
  | inr e ↦ rw e (refl, refl, refl)
]

delete_mails_lem :
    (p : Message → Bool) (s : Tables)
    → DeletedMessages memory p s
        (delete_mails p s).0.error
        (delete_mails p s).0.rows_affected
        (delete_mails p s).1
delete_mails_lem p s = elim (Bool-cases s.broken) [
  | inl e ↦ rw e ((refl, refl), refl)
  | inr e ↦ rw e (refl, refl, refl)
]

insert_mail_lem :
    (m : Message) (s : Tables) → CreatedMessage memory m s (insert_mail m s).0 (insert_mail m s).1
insert_mail_lem m s =
    elim (Bool-cases (s.broken || not (any (λ b. b.id == m.mailbox_id) s.boxes))) [
      | inl e ↦ rw e (refl, refl)
      | inr e ↦ rw e (refl, refl, refl)
    ]

first_address :
    (a : Text) (s : Tables) (mb : Mailbox)
    → memory.first_mailbox a s ≡ ok mb
    → Any (λ b. b ≡ mb) s.boxes × (mb.address ≡ a)
first_address a s mb h =
    let (found, e) = first_with_ok (has_address a) s.boxes mb (ground arith) in
    (found, same→≡ mb.address a e)

with_mails_lem :
    (a : Text) (s : Tables) (r : Result Fault Mailbox) (mb : Mailbox) (ms : List Message)
    → ((b : Mailbox) → r ≡ ok b → Any (λ x. x ≡ b) s.boxes × (b.address ≡ a))
    → with_mails s r ≡ ok (mb, ms)
    → Any (λ b. b ≡ mb) s.boxes × (mb.address ≡ a) × Selected mb.id s.mails ms
with_mails_lem a s (ok b) mb ms found e =
    let same_box : b ≡ mb = ground arith in
    let (held, address) = found mb (ap ok same_box) in
    (held, address, mails_of-Selected mb.id s.mails ms (ground arith))
with_mails_lem a s (err x) mb ms found e = absurd (ground arith)

with_mails-absent :
    (s : Tables) (r : Result Fault Mailbox) → with_mails s r ≡ err not_found → r ≡ err not_found
with_mails-absent s (ok b) e = absurd (ground arith)
with_mails-absent s (err x) e = ground arith

absent_address :
    (a : Text) (s : Tables)
    → memory.first_mailbox a s ≡ err not_found
    → All (λ b. b.address ≢ a) s.boxes
absent_address a s h =
    All-map s.boxes (other_address a) (first_with_absent (has_address a) s.boxes (ground arith))

all_boxes :
    (s : Tables) (boxes : List Mailbox) → memory.find_mailboxes s ≡ ok boxes → Perm boxes s.boxes
all_boxes s boxes h =
    let same : s.boxes ≡ boxes = ground arith in subst (λ xs. Perm xs s.boxes) same Perm.rfl

first_mail :
    (id : Text) (n : ℕ) (s : Tables) (m : Message)
    → IsNumber id n
    → (memory.first_message id s).0 ≡ ok m
    → Any (λ x. x ≡ m) s.mails × (m.id ≡ n)
first_mail id n s m (e, _) h =
    let (held, hit) = first_with_ok (has_id id) s.mails m (ground arith) in
    (held, (==_iff m.id n).0 (rw (e, has_id) at hit))

absent_mail :
    (id : Text) (n : ℕ) (s : Tables)
    → IsNumber id n
    → (memory.first_message id s).0 ≡ err not_found
    → All (λ m. m.id ≢ n) s.mails
absent_mail id n s (e, _) h =
    All-map s.mails
      (λ m miss same.
        let other : (m.id == n) ≡ false = rw (e, has_id) at miss in
        ground (arith, ==_iff m.id n, same))
      (first_with_absent (has_id id) s.mails (ground arith))

delete_mail_lem :
    (id : Text) (n : ℕ) (s : Tables)
    → IsNumber id n
    → DeletedMessages memory
        (λ m. m.id == n)
        s
        (delete_mails (has_id id) s).0.error
        (delete_mails (has_id id) s).0.rows_affected
        (delete_mails (has_id id) s).1
delete_mail_lem id n s (e, _) =
    let same : (λ (m : Message). m.id == n) ≡ has_id id =
      ap (λ r. λ (m : Message). elim r [ some k ↦ m.id == k | none ↦ false ]) (sym e) in
    subst
      (λ p.
        DeletedMessages memory (λ m. m.id == n) s (delete_mails p s).0.error
          (delete_mails p s).0.rows_affected (delete_mails p s).1)
      same (delete_mails_lem (λ m. m.id == n) s)

-- The tables in memory meet what the program expects of its database.
pub memory-IsRelational : IsRelational memory
memory-IsRelational = record {
  first_ok = first_address;
  first_absent = absent_address;
  counted = λ a s n h. ground arith;
  created = insert_box_lem;
  deleted = λ a. delete_boxes_lem (has_address a);
  purged = λ t. delete_boxes_lem (expired t);
  graph_counted = λ g s n h. ground arith;
  stored = insert_mail_lem;
  listed = λ i s ms h. mails_of-Selected i s.mails ms (ground arith);
  loaded = λ a s mb ms h. with_mails_lem a s (memory.first_mailbox a s) mb ms (first_address a s) h;
  load_absent = λ a s h. absent_address a s (with_mails-absent s (memory.first_mailbox a s) h);
  all_listed = all_boxes;
  message_ok = first_mail;
  message_absent = absent_mail;
  message_read = λ id n s h. refl;
  aged = λ t. delete_mails_lem (received_before t);
  removed = delete_mail_lem;
}

-- They too meet what the program expects.
pub steady-IsRelational : IsRelational steady
steady-IsRelational = record {
  first_ok = memory-IsRelational.first_ok;
  first_absent = memory-IsRelational.first_absent;
  counted = memory-IsRelational.counted;
  created = memory-IsRelational.created;
  deleted = memory-IsRelational.deleted;
  purged = memory-IsRelational.purged;
  graph_counted = memory-IsRelational.graph_counted;
  stored = memory-IsRelational.stored;
  listed = λ i s ms h. mails_of-Selected i s.mails ms (ground arith);
  loaded = memory-IsRelational.loaded;
  load_absent = memory-IsRelational.load_absent;
  all_listed = memory-IsRelational.all_listed;
  message_ok = memory-IsRelational.message_ok;
  message_absent = memory-IsRelational.message_absent;
  message_read = memory-IsRelational.message_read;
  aged = memory-IsRelational.aged;
  removed = memory-IsRelational.removed;
}

pub steady-finds :
    (b : Mailbox) (s : Tables) → (ms : List Message) × (steady.find_messages b.id s ≡ ok ms)
steady-finds b s = (_, refl)
