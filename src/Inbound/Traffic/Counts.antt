-- ===== src/Inbound/Traffic/Counts.antt =====
-- About storing messages at the same time: how many messages have an identifier of Graph, and what the statements
-- that are not those of a message do to it.
use tempmail.Prelude.{
  ◌==◌, ℕ, ◌+◌, ◌≤◌, ◌≡◌, ◌≢◌, refl, subst, Bool, not, Bool-cases, List, [], ◌∷◌, ◌++◌, filter,
  length, if◌then◌else◌, Option, none, some, arith, inl, inr,
}
use tempmail.Text.{Text, Unicode, same}
use tempmail.Text.Laws.{same→≡}
use tempmail.Models.{Mailbox, Message}
use tempmail.Database.{
  Db, IsRelational, Deleted, DeletedMessages, owned, has_address, expired, received_before,
}
use tempmail.Inbound.{Services}
use tempmail.Inbound.Traffic.{
  IsNamed, Delivery, mail, graph, Progress, checking, looking, creating, filing, skipped, finished,
  first_step, Statement, create_box, delete_box, delete_expired, delete_message, delete_old,
  execute,
}
use tempmail.Inbound.Traffic.Answers.{created-same}

abbrev pub count_of : Text → List Message → ℕ
count_of g ms = length (filter (λ m. same m.graph_id g) ms)

-- No two messages have one identifier of Graph.
abbrev pub IsUnique : List Message → Type 0
IsUnique ms = (g : Text) → g ≢ [] → count_of g ms ≤ 1

-- The identifier of the Graph message is not in the table while the message is stored.
abbrev pub Lacks : Text → List Message → Type 0
Lacks g ms = g ≢ [] → count_of g ms ≤ 0

abbrev pub Clear : Delivery → Progress → List Message → Type 0
Clear (graph gm to now received) looking ms = Lacks gm.id ms
Clear (graph gm to now received) creating ms = Lacks gm.id ms
Clear (graph gm to now received) (filing mb) ms = Lacks gm.id ms
Clear _ p ms = Unit

-- a Graph message between its check and its end
abbrev pub IsUnderway : Delivery → Progress → Type 0
IsUnderway (graph gm to now received) looking = Unit
IsUnderway (graph gm to now received) creating = Unit
IsUnderway (graph gm to now received) (filing mb) = Unit
IsUnderway _ p = ⊥

pub idle-Clear :
    (job : Delivery) (p : Progress) (ms : List Message) → (IsUnderway job p → ⊥) → Clear job p ms
idle-Clear (mail raw env to now received) p ms h = tt
idle-Clear (graph gm to now received) looking ms h = absurd (h tt)
idle-Clear (graph gm to now received) creating ms h = absurd (h tt)
idle-Clear (graph gm to now received) (filing mb) ms h = absurd (h tt)
idle-Clear (graph gm to now received) checking ms h = tt
idle-Clear (graph gm to now received) skipped ms h = tt
idle-Clear (graph gm to now received) (finished r) ms h = tt

abbrev pub Shrinks : List Message → List Message → Type 0
Shrinks ms ns = (g : Text) → g ≢ [] → count_of g ns ≤ count_of g ms

pub Clear-Shrinks :
    (job : Delivery) (p : Progress) (ms ns : List Message)
    → Shrinks ms ns
    → Clear job p ms
    → Clear job p ns
Clear-Shrinks (mail raw env to now received) p ms ns h k = tt
Clear-Shrinks (graph gm to now received) looking ms ns h k = λ e. ground (arith, h gm.id e, k e)
Clear-Shrinks (graph gm to now received) creating ms ns h k = λ e. ground (arith, h gm.id e, k e)
Clear-Shrinks (graph gm to now received) (filing mb) ms ns h k = λ e. ground (arith, h gm.id e, k e)
Clear-Shrinks (graph gm to now received) checking ms ns h k = tt
Clear-Shrinks (graph gm to now received) skipped ms ns h k = tt
Clear-Shrinks (graph gm to now received) (finished r) ms ns h k = tt

pub same-Shrinks : (ms ns : List Message) → ns ≡ ms → Shrinks ms ns
same-Shrinks ms ns e g h = rw e (omega arith)

filter-Shrinks : (p : Message → Bool) (ms : List Message) → Shrinks ms (filter p ms)
filter-Shrinks p [] g h = omega arith
filter-Shrinks p (m ∷ ms) g h =
    let rest = filter-Shrinks p ms g h in
    elim (Bool-cases (p m)) [ inl e ↦ rw e (ground arith) | inr e ↦ rw e (ground arith) ]

-- the count with a message more
count-append :
    (g : Text) (ms : List Message) (x : Message)
    → count_of g (ms ++ x ∷ []) ≡ count_of g ms + (if same x.graph_id g then 1 else 0)
count-append g [] x = ground arith
count-append g (m ∷ ms) x = let rest = count-append g ms x in ground arith

pub mail-Shrinks : (ms : List Message) (x : Message) → x.graph_id ≡ [] → Shrinks ms (ms ++ x ∷ [])
mail-Shrinks ms x e [] h = absurd (h refl)
mail-Shrinks ms x e (c ∷ g) h = rw (count-append (c ∷ g) ms x, e) (omega arith)

pub filed-IsUnique :
    (ms : List Message) (x : Message) → IsUnique ms → Lacks x.graph_id ms → IsUnique (ms ++ x ∷ [])
filed-IsUnique ms x h k g some_id = elim (Bool-cases (same x.graph_id g)) [
  | inl e ↦
      let is : x.graph_id ≡ g = same→≡ x.graph_id g e in
      let before : count_of g ms ≤ 0 = subst (λ i. Lacks i ms) is k some_id in
      rw (count-append g ms x, e) (omega arith)
  | inr e ↦ let before = h g some_id in rw (count-append g ms x, e) (omega arith)
]

pub first-Clear : (job : Delivery) (ms : List Message) → Clear job (first_step job) ms
first-Clear (mail raw env to now received) ms = tt
first-Clear (graph gm to now received) ms = tt

pub IsUnique-Shrinks : (ms ns : List Message) → Shrinks ms ns → IsUnique ms → IsUnique ns
IsUnique-Shrinks ms ns h k g e = ground (arith, h g e, k g e)

module _ ⦃u : Unicode⦄ {Conn : Type 0} (d : Db Conn) (laws : IsRelational d) (sv : Services) where
  Deleted-Shrinks :
      (p : Mailbox → Bool) (s : Conn) (r : Option Text) (n : ℕ) (t : Conn)
      → Deleted d p s r n t
      → Shrinks (d.messages s) (d.messages t)
  Deleted-Shrinks p s none n t (_, e, _) =
      rw e (filter-Shrinks (λ m. not (owned p (d.mailboxes s) m)) (d.messages s))
  Deleted-Shrinks p s (some x) n t ((_, e), _) = same-Shrinks _ _ e

  DeletedMessages-Shrinks :
      (p : Message → Bool) (s : Conn) (r : Option Text) (n : ℕ) (t : Conn)
      → DeletedMessages d p s r n t
      → Shrinks (d.messages s) (d.messages t)
  DeletedMessages-Shrinks p s none n t (e, _, _) =
      rw e (filter-Shrinks (λ m. not (p m)) (d.messages s))
  DeletedMessages-Shrinks p s (some x) n t ((_, e), _) = same-Shrinks _ _ e

  pub execute-Shrinks :
      (q : Statement) (s : Conn)
      → IsNamed q
      → Shrinks (d.messages s) (d.messages (execute d sv q s))
  unfolding execute
  execute-Shrinks (create_box mb) s n =
      same-Shrinks _ _ (created-same d laws sv mb s _ _ (laws.created mb s))
  execute-Shrinks (delete_box a) s n = Deleted-Shrinks (has_address a) s _ _ _ (laws.deleted a s)
  execute-Shrinks (delete_expired t) s n = Deleted-Shrinks (expired t) s _ _ _ (laws.purged t s)
  execute-Shrinks (delete_message id) s (n, h) =
      DeletedMessages-Shrinks (λ m. m.id == n) s _ _ _ (laws.removed id n s h)
  execute-Shrinks (delete_old t) s n =
      DeletedMessages-Shrinks (received_before t) s _ _ _ (laws.aged t s)
