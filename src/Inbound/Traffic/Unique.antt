-- ===== src/Inbound/Traffic/Unique.antt =====
-- About storing messages at the same time: one message of a Graph identifier.
use tempmail.Prelude.{
  ℕ, ◌≡◌, ◌≢◌, refl, sym, ap, ◌∙◌, subst, ◌==◌, ==_iff, false, Bool-cases, ltb, List, [], ◌∷◌,
  if_elim, arith, inl, inr,
}
use tempmail.Text.{Text, Unicode}
use tempmail.Models.{Time, Mailbox, Message, Result, ok, err}
use tempmail.Database.{Db, Fault, not_found, failed, IsRelational, CreatedMessage}
use tempmail.Recipient.{Envelope, GraphMessage}
use tempmail.Inbound.{Services, auto_mailbox, already_stored, graph_message, mail_message}
use tempmail.Inbound.Traffic.{
  Delivery, mail, graph, Progress, checking, looking, creating, filing, skipped, finished,
  message_of, repeated, looked, made, advance, Traffic, stepped, Reach, here, store, other,
}
use tempmail.Inbound.Traffic.Answers.{created-same}
use tempmail.Inbound.Traffic.Counts.{
  IsUnique, Lacks, Clear, IsUnderway, idle-Clear, Shrinks, Clear-Shrinks, same-Shrinks,
  mail-Shrinks, filed-IsUnique, first-Clear, IsUnique-Shrinks, execute-Shrinks,
}

module _ ⦃u : Unicode⦄ {Conn : Type 0} (d : Db Conn) (laws : IsRelational d) (sv : Services) where
  mail_filed-Shrinks :
      (m : Message) (s : Conn) (r : Result Fault Message) (t : Conn)
      → m.graph_id ≡ []
      → CreatedMessage d m s r t
      → Shrinks (d.messages s) (d.messages t)
  mail_filed-Shrinks m s (ok x) t h (e, _, f) =
      rw e (mail-Shrinks (d.messages s) x (ap (λ (y : Message). y.graph_id) f ∙ h))
  mail_filed-Shrinks m s (err x) t h (_, e) = same-Shrinks _ _ e

  -- A statement of a mail adds no message with an identifier of Graph.
  mail-advance-Shrinks :
      (raw : Text) (env : Envelope) (to : Text) (now received : Time) (p : Progress) (s : Conn)
      → Shrinks (d.messages s) (d.messages (advance d sv (mail raw env to now received) p s).1)
  unfolding advance message_of
  mail-advance-Shrinks raw env to now received checking s = same-Shrinks _ _ refl
  mail-advance-Shrinks raw env to now received looking s = same-Shrinks _ _ refl
  mail-advance-Shrinks raw env to now received creating s =
      let mb = auto_mailbox d sv to now in
      same-Shrinks _ _ (created-same d laws sv mb s _ _ (laws.created mb s))
  mail-advance-Shrinks raw env to now received (filing mb) s =
      let m = mail_message d sv raw env to received mb in
      mail_filed-Shrinks m s _ _ refl (laws.stored m s)
  mail-advance-Shrinks raw env to now received skipped s = same-Shrinks _ _ refl
  mail-advance-Shrinks raw env to now received (finished r) s = same-Shrinks _ _ refl

  absent-Lacks :
      (g : Text) (n : ℕ) (s : Conn)
      → d.count_graph_id g s ≡ ok n
      → already_stored d sv g s ≡ false
      → Lacks g (d.messages s)
  unfolding already_stored
  absent-Lacks [] n s q h e = absurd (e refl)
  absent-Lacks (c ∷ g) n s q h e =
      let counted = laws.graph_counted (c ∷ g) s n q in
      let none_there : ltb 0 n ≡ false = rw q at h in ground arith

  filed_graph-IsUnique :
      (m : Message) (s : Conn) (r : Result Fault Message) (t : Conn)
      → IsUnique (d.messages s)
      → Lacks m.graph_id (d.messages s)
      → CreatedMessage d m s r t
      → IsUnique (d.messages t)
  filed_graph-IsUnique m s (ok x) t h k (e, _, f) = rw e (
      filed-IsUnique (d.messages s) x h
        (subst (λ g. Lacks g (d.messages s)) (sym (ap (λ (y : Message). y.graph_id) f)) k))
  filed_graph-IsUnique m s (err x) t h k (_, e) = IsUnique-Shrinks _ _ (same-Shrinks _ _ e) h

  looked-Clear :
      (gm : GraphMessage) (to : Text) (now received : Time) (ms : List Message)
      (r : Result Fault Mailbox)
      → Lacks gm.id ms
      → Clear (graph gm to now received) (looked d sv r) ms
  unfolding looked
  looked-Clear gm to now received ms (ok mb) h = h
  looked-Clear gm to now received ms (err not_found) h = h
  looked-Clear gm to now received ms (err (failed e)) h = tt

  made-Clear :
      (gm : GraphMessage) (to : Text) (now received : Time) (ms : List Message)
      (r : Result Fault Mailbox)
      → Lacks gm.id ms
      → Clear (graph gm to now received) (made d sv r) ms
  unfolding made
  made-Clear gm to now received ms (ok mb) h = h
  made-Clear gm to now received ms (err e) h = tt

  graph-advance-IsUnique :
      (gm : GraphMessage) (to : Text) (now received : Time) (p : Progress) (s : Conn) (n : ℕ)
      → d.count_graph_id gm.id s ≡ ok n
      → IsUnique (d.messages s)
      → Clear (graph gm to now received) p (d.messages s)
      → IsUnique (d.messages (advance d sv (graph gm to now received) p s).1)
        × Clear
            (graph gm to now received)
            (advance d sv (graph gm to now received) p s).0
            (d.messages (advance d sv (graph gm to now received) p s).1)
  unfolding advance message_of repeated graph_message
  graph-advance-IsUnique gm to now received checking s n q h k = (
    h,
    if_elim (λ (p : Progress). Clear (graph gm to now received) p (d.messages s))
        (already_stored d sv gm.id s) (λ e. tt) (absent-Lacks gm.id n s q),
  )
  graph-advance-IsUnique gm to now received looking s n q h k =
      (h, looked-Clear gm to now received (d.messages s) (d.first_mailbox to s) k)
  graph-advance-IsUnique gm to now received creating s n q h k =
      let mb = auto_mailbox d sv to now in
      let r = d.create_mailbox mb s in
      let same = same-Shrinks _ _ (created-same d laws sv mb s r.0 r.1 (laws.created mb s)) in
      (
        IsUnique-Shrinks _ _ same h,
        made-Clear gm to now received (d.messages r.1) r.0
            (Clear-Shrinks (graph gm to now received) creating _ _ same k),
      )
  graph-advance-IsUnique gm to now received (filing mb) s n q h k =
      let m = graph_message d sv gm to received mb in
      (filed_graph-IsUnique m s _ _ h k (laws.stored m s), tt)
  graph-advance-IsUnique gm to now received skipped s n q h k = (h, tt)
  graph-advance-IsUnique gm to now received (finished r) s n q h k = (h, tt)

  module _ (jobs : ℕ → Delivery) where
    -- While a statement of a Graph message runs, no other Graph message is between its check and its end, and the
    -- query for duplicates succeeds.
    abbrev IsApart : Delivery → ℕ → Traffic Conn → Type 0
    IsApart (mail raw env to now received) i s = Unit
    IsApart (graph gm to now received) i s =
        ((j : ℕ) → j ≢ i → IsUnderway (jobs j) (s.place j) → ⊥)
        × (n : ℕ) × (d.count_graph_id gm.id s.conn ≡ ok n)

    -- a run whose Graph messages are stored one after another
    abbrev pub IsOrdered : {c : Conn} {s : Traffic Conn} → Reach d sv jobs c s → Type 0
    IsOrdered here = Unit
    IsOrdered (store i {s} r) = IsApart (jobs i) i s × IsOrdered r
    IsOrdered (other q n r) = IsOrdered r

    abbrev Inv : Traffic Conn → Type 0
    Inv s =
        IsUnique (d.messages s.conn) × ((i : ℕ) → Clear (jobs i) (s.place i) (d.messages s.conn))

    -- what a statement of one message does to the table and to the places
    abbrev Keeps : ℕ → Traffic Conn → Type 0
    Keeps i s =
        let (p, t) = advance d sv (jobs i) (s.place i) s.conn in
        IsUnique (d.messages t)
        × Clear (jobs i) p (d.messages t)
        × ((j : ℕ) → j ≢ i → Clear (jobs j) (s.place j) (d.messages t))

    stepped-Keeps :
        (i : ℕ) (s : Traffic Conn) (job : Delivery)
        → jobs i ≡ job
        → IsApart job i s
        → Inv s
        → Keeps i s
    stepped-Keeps i s (mail raw env to now received) e apart (unique, clear) =
        let shrinks = mail-advance-Shrinks raw env to now received (s.place i) s.conn in
        rw e (
          IsUnique-Shrinks _ _ shrinks unique,
          tt,
          λ j ne. Clear-Shrinks (jobs j) (s.place j) _ _ shrinks (clear j),
        )
    stepped-Keeps i s (graph gm to now received) e (alone, n, counted) (unique, clear) =
        let (uniquely, right) =
          graph-advance-IsUnique gm to now received (s.place i) s.conn n counted unique
            (subst (λ job. Clear job (s.place i) (d.messages s.conn)) e (clear i)) in
        rw e (uniquely, right, λ j ne. idle-Clear (jobs j) (s.place j) _ (alone j ne))

    stepped-Inv : (i : ℕ) (s : Traffic Conn) → Keeps i s → Inv (stepped d sv jobs i s)
    unfolding stepped
    stepped-Inv i s (unique, right, others) =
        let (p, t) = advance d sv (jobs i) (s.place i) s.conn in
        (
          unique,
          λ j. elim (Bool-cases (j == i)) [
            | inl e ↦
                rw e (subst (λ k. Clear (jobs k) p (d.messages t)) (sym ((==_iff j i).0 e)) right)
            | inr e ↦ rw e (others j (λ same. ground (arith, ==_iff j i)))
          ],
        )

    Reach-Inv :
        {c : Conn} {s : Traffic Conn} (r : Reach d sv jobs c s)
        → IsUnique (d.messages c)
        → IsOrdered r
        → Inv s
    Reach-Inv {c} here h o = (h, λ i. first-Clear (jobs i) (d.messages c))
    Reach-Inv (store i {s} r) h o =
        stepped-Inv i s (stepped-Keeps i s (jobs i) refl o.0 (Reach-Inv r h o.1))
    Reach-Inv (other q {s} n r) h o =
        let (unique, clear) = Reach-Inv r h o in
        let shrinks = execute-Shrinks d laws sv q s.conn n in
        (
          IsUnique-Shrinks _ _ shrinks unique,
          λ i. Clear-Shrinks (jobs i) (s.place i) _ _ shrinks (clear i),
        )

    -- In a database that meets IsRelational, if no two messages of the table have one identifier of Graph, then
    -- none have after any run in which the Graph messages are stored one after another and the query for
    -- duplicates succeeds, although the statements of any number of mails, of requests and of the clean-up stand
    -- between theirs, whichever of those fails. A message that a request deletes is named by a number.
    pub Reach-IsUnique :
        {c : Conn} {s : Traffic Conn} (r : Reach d sv jobs c s)
        → IsUnique (d.messages c)
        → IsOrdered r
        → IsUnique (d.messages s.conn)
    Reach-IsUnique r h o = (Reach-Inv r h o).0
