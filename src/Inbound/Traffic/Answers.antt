-- ===== src/Inbound/Traffic/Answers.antt =====
-- About storing messages at the same time: the rank of a place, and what the table has of a message that has ended.
use tempmail.Prelude.{
  ℕ, ◌≤◌, ◌<◌, ◌≡◌, refl, sym, subst, true, false, Bool-cases, ltb, List, [], ◌∷◌, Any,
  Any-append_left, Any-append_right, filter, length, is_empty, arith, inl, inr,
}
use tempmail.Text.{Text, Unicode, same}
use tempmail.Text.Laws.{same→≡}
use tempmail.Models.{Mailbox, Message, Result, ok, err}
use tempmail.Database.{Db, Fault, not_found, failed, IsRelational, CreatedMailbox, CreatedMessage}
use tempmail.Inbound.{Services, already_stored, filed}
use tempmail.Inbound.Traffic.{
  Delivery, mail, graph, Progress, checking, looking, creating, filing, skipped, finished,
  first_step, Statement, create_box, message_of, repeated, looked, made,
}

-- the statements that are left, at most
unfoldable pub rank : Progress → ℕ
rank checking = 4
rank looking = 3
rank creating = 2
rank (filing mb) = 1
rank skipped = 0
rank (finished r) = 0

pub first_step-rank : (job : Delivery) → rank (first_step job) ≤ 4
unfolding rank
first_step-rank (mail raw env to now received) = omega arith
first_step-rank (graph gm to now received) = omega arith

counted-there :
    (g : Text) (ms : List Message)
    → 0 < length (filter (λ m. same m.graph_id g) ms)
    → Any (λ m. m.graph_id ≡ g) ms
counted-there g [] h = absurd (ground arith)
counted-there g (m ∷ ms) h = elim (Bool-cases (same m.graph_id g)) [
  | inl e ↦ inl (same→≡ m.graph_id g e)
  | inr e ↦ inr (counted-there g ms (ground arith))
]

-- a message with the identifier of the Graph message
abbrev pub IsRepeat : Delivery → List Message → Type 0
IsRepeat (mail raw env to now received) ms = ⊥
IsRepeat (graph gm to now received) ms = Any (λ m. m.graph_id ≡ gm.id) ms

abbrev pub Grows : List Message → List Message → Type 1
Grows ms ns = (P : Message → Type 0) → Any P ms → Any P ns

IsRepeat-still :
    (job : Delivery) (ms ns : List Message) → Grows ms ns → IsRepeat job ms → IsRepeat job ns
IsRepeat-still (mail raw env to now received) ms ns g h = absurd h
IsRepeat-still (graph gm to now received) ms ns g h = g (λ m. m.graph_id ≡ gm.id) h

-- no statement that deletes
abbrev pub IsCreation : Statement → Type 0
IsCreation (create_box mb) = Unit
IsCreation _ = ⊥

module _ ⦃u : Unicode⦄ {Conn : Type 0} (d : Db Conn) (laws : IsRelational d) (sv : Services) where
  -- the message of a delivery under some mailbox, with the identifier that it was given, in the table
  abbrev pub IsStored : Delivery → Message → List Message → Type 0
  IsStored job m ms =
      ((mb : Mailbox) × (m ≡ record (message_of d sv job mb) { id = m.id })) × Any (λ x. x ≡ m) ms

  -- what the table has of a message that has ended
  abbrev pub Answers : Delivery → List Message → Progress → Type 0
  Answers job ms (finished (ok m)) = IsStored job m ms
  Answers job ms skipped = IsRepeat job ms
  Answers job ms _ = Unit

  -- A message is in the table, or its error was returned, or a message with its Graph identifier is in the table.
  abbrev pub IsServed : Delivery → List Message → Progress → Type 0
  IsServed job ms (finished (ok m)) = IsStored job m ms
  IsServed job ms (finished (err e)) = Unit
  IsServed job ms skipped = IsRepeat job ms
  IsServed job ms _ = ⊥

  pub ended :
      (job : Delivery) (ms : List Message) (p : Progress)
      → rank p ≤ 0
      → Answers job ms p
      → IsServed job ms p
  unfolding rank
  ended job ms checking h a = absurd (omega arith)
  ended job ms looking h a = absurd (omega arith)
  ended job ms creating h a = absurd (omega arith)
  ended job ms (filing mb) h a = absurd (omega arith)
  ended job ms skipped h a = a
  ended job ms (finished (ok m)) h a = a
  ended job ms (finished (err e)) h a = tt

  pub Answers-still :
      (job : Delivery) (ms ns : List Message) (p : Progress)
      → Grows ms ns
      → Answers job ms p
      → Answers job ns p
  Answers-still job ms ns (finished (ok m)) g (e, h) = (e, g (λ x. x ≡ m) h)
  Answers-still job ms ns (finished (err e)) g h = tt
  Answers-still job ms ns skipped g h = IsRepeat-still job ms ns g h
  Answers-still job ms ns checking g h = tt
  Answers-still job ms ns looking g h = tt
  Answers-still job ms ns creating g h = tt
  Answers-still job ms ns (filing mb) g h = tt

  pub first-Answers : (job : Delivery) (ms : List Message) → Answers job ms (first_step job)
  first-Answers (mail raw env to now received) ms = tt
  first-Answers (graph gm to now received) ms = tt

  pub same-Grows : (ms ns : List Message) → ns ≡ ms → Grows ms ns
  same-Grows ms ns e P h = subst (Any P) (sym e) h

  pub created-same :
      (mb : Mailbox) (s : Conn) (r : Result Fault Mailbox) (t : Conn)
      → CreatedMailbox d mb s r t
      → d.messages t ≡ d.messages s
  created-same mb s (ok b) t (_, e, _, _, _) = e
  created-same mb s (err x) t (_, e) = e

  counted_from :
      (g : Text) (s : Conn) (r : Result Fault ℕ)
      → d.count_graph_id g s ≡ r
      → (elim r [ ok n ↦ ltb 0 n | err e ↦ false ]) ≡ true
      → Any (λ m. m.graph_id ≡ g) (d.messages s)
  counted_from g s (err e) q h = absurd (cc h)
  counted_from g s (ok n) q h =
      let counted = laws.graph_counted g s n q in counted-there g (d.messages s) (ground arith)

  already_stored-there :
      (g : Text) (s : Conn) (r : Result Fault ℕ)
      → d.count_graph_id g s ≡ r
      → already_stored d sv g s ≡ true
      → Any (λ m. m.graph_id ≡ g) (d.messages s)
  unfolding already_stored
  already_stored-there g s r q h = elim (Bool-cases (is_empty g)) [
    | inl e ↦ absurd (ground arith)
    | inr e ↦ counted_from g s r q (rw (e, q) at h)
  ]

  pub repeated-there :
      (job : Delivery) (s : Conn) → repeated d sv job s ≡ true → IsRepeat job (d.messages s)
  unfolding repeated
  repeated-there (mail raw env to now received) s h = absurd (cc h)
  repeated-there (graph gm to now received) s h = already_stored-there gm.id s _ refl h

  pub looked-Answers :
      (job : Delivery) (ms : List Message) (r : Result Fault Mailbox)
      → Answers job ms (looked d sv r) × (rank (looked d sv r) ≤ 2)
  unfolding looked rank
  looked-Answers job ms (ok mb) = (tt, omega arith)
  looked-Answers job ms (err not_found) = (tt, omega arith)
  looked-Answers job ms (err (failed e)) = (tt, omega arith)

  pub made-Answers :
      (job : Delivery) (ms : List Message) (r : Result Fault Mailbox)
      → Answers job ms (made d sv r) × (rank (made d sv r) ≤ 1)
  unfolding made rank
  made-Answers job ms (ok mb) = (tt, omega arith)
  made-Answers job ms (err e) = (tt, omega arith)

  pub filed-Answers :
      (job : Delivery) (mb : Mailbox) (s : Conn) (r : Result Fault Message) (t : Conn)
      → CreatedMessage d (message_of d sv job mb) s r t
      → Grows (d.messages s) (d.messages t) × Answers job (d.messages t) (finished (filed d sv r))
  unfolding filed
  filed-Answers job mb s (ok m) t (e, _, f) = (
    λ P h. rw e (Any-append_left P (d.messages s) (m ∷ []) h),
    ((mb, f), rw e (Any-append_right (λ x. x ≡ m) (d.messages s) (m ∷ []) (inl refl))),
  )
  filed-Answers job mb s (err x) t (_, e) = (same-Grows _ _ e, tt)
