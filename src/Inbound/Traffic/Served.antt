-- ===== src/Inbound/Traffic/Served.antt =====
-- About storing messages at the same time: what has become of a message after its statements.
use tempmail.Prelude.{
  ℕ, suc, ◌-◌, ◌≤◌, ◌≡◌, sym, subst, ◌==◌, ==_iff, Bool-cases, if◌then◌else◌, if_elim, arith, inl,
  inr,
}
use tempmail.Text.{Unicode}
use tempmail.Database.{Db, IsRelational}
use tempmail.Inbound.{Services, auto_mailbox}
use tempmail.Inbound.Traffic.{
  Delivery, recipient, clock, Progress, checking, looking, creating, filing, skipped, finished,
  Statement, create_box, delete_box, delete_expired, delete_message, delete_old, message_of,
  repeated, advance, execute, Traffic, stepped, Reach, here, store, other,
}
use tempmail.Inbound.Traffic.Answers.{
  rank, first_step-rank, Grows, IsCreation, Answers, IsServed, ended, Answers-still, first-Answers,
  same-Grows, created-same, repeated-there, looked-Answers, made-Answers, filed-Answers,
}

module _ ⦃u : Unicode⦄ {Conn : Type 0} (d : Db Conn) (laws : IsRelational d) (sv : Services) where
  -- What a statement of a message does: no message leaves the table, the place is right, and fewer are left.
  abbrev Serves : Delivery → Progress → Conn → Progress × Conn → Type 1
  Serves job p s r =
      Grows (d.messages s) (d.messages r.1)
      × Answers d laws sv job (d.messages r.1) r.0
      × (rank r.0 ≤ rank p - 1)

  advance-Serves :
      (job : Delivery) (p : Progress) (s : Conn)
      → Answers d laws sv job (d.messages s) p
      → Serves job p s (advance d sv job p s)
  unfolding advance rank
  advance-Serves job checking s h = (
    λ P x. x,
    if_elim (λ (p : Progress). Answers d laws sv job (d.messages s) p) (repeated d sv job s)
        (repeated-there d laws sv job s) (λ e. tt),
    if_elim (λ (p : Progress). rank p ≤ 3) (repeated d sv job s) (λ e. omega arith)
        (λ e. omega arith),
  )
  advance-Serves job looking s h =
      let (right, fewer) =
        looked-Answers d laws sv job (d.messages s) (d.first_mailbox (recipient job) s) in
      (λ P x. x, right, fewer)
  advance-Serves job creating s h =
      let mb = auto_mailbox d sv (recipient job) (clock job) in
      let r = d.create_mailbox mb s in
      let (right, fewer) = made-Answers d laws sv job (d.messages r.1) r.0 in
      (
        same-Grows d laws sv _ _ (created-same d laws sv mb s r.0 r.1 (laws.created mb s)),
        right,
        fewer,
      )
  advance-Serves job (filing mb) s h =
      let m = message_of d sv job mb in
      let r = d.create_message m s in
      let (grows, right) = filed-Answers d laws sv job mb s r.0 r.1 (laws.stored m s) in
      (grows, right, omega arith)
  advance-Serves job skipped s h = (λ P x. x, h, omega arith)
  advance-Serves job (finished r) s h = (λ P x. x, h, omega arith)

  execute-Grows :
      (q : Statement) (s : Conn)
      → IsCreation q
      → Grows (d.messages s) (d.messages (execute d sv q s))
  unfolding execute
  execute-Grows (create_box mb) s h =
      same-Grows d laws sv _ _ (created-same d laws sv mb s _ _ (laws.created mb s))
  execute-Grows (delete_box a) s h = absurd h
  execute-Grows (delete_expired t) s h = absurd h
  execute-Grows (delete_message id) s h = absurd h
  execute-Grows (delete_old t) s h = absurd h

  module _ (jobs : ℕ → Delivery) where
    -- the statements of a message in a run
    unfoldable pub taken : ℕ → {c : Conn} {s : Traffic Conn} → Reach d sv jobs c s → ℕ
    taken i here = 0
    taken i (store j r) = let n = taken i r in if i == j then suc n else n
    taken i (other q n r) = taken i r

    -- a run in which nothing is deleted
    abbrev pub IsUndeleted : {c : Conn} {s : Traffic Conn} → Reach d sv jobs c s → Type 0
    IsUndeleted here = Unit
    IsUndeleted (store j r) = IsUndeleted r
    IsUndeleted (other q n r) = IsCreation q × IsUndeleted r

    abbrev Stands : ℕ → ℕ → Traffic Conn → Type 0
    Stands i n s =
        Answers d laws sv (jobs i) (d.messages s.conn) (s.place i) × (rank (s.place i) ≤ 4 - n)

    stepped-Stands :
        (i j n : ℕ) (s : Traffic Conn)
        → ((k : ℕ) → Answers d laws sv (jobs k) (d.messages s.conn) (s.place k))
        → rank (s.place i) ≤ 4 - n
        → Stands i (if i == j then suc n else n) (stepped d sv jobs j s)
    unfolding stepped
    stepped-Stands i j n s h left =
        let (grows, right, fewer) = advance-Serves (jobs j) (s.place j) s.conn (h j) in
        elim (Bool-cases (i == j)) [
          | inl e ↦
              let same : i ≡ j = (==_iff i j).0 e in
              let before : rank (s.place j) ≤ 4 - n =
                subst (λ k. rank (s.place k) ≤ 4 - n) same left in
              rw e (
                subst
                    (λ k.
                      Answers d laws sv (jobs k) (d.messages (stepped d sv jobs j s).conn)
                        (advance d sv (jobs j) (s.place j) s.conn).0)
                    (sym same) right,
                omega arith,
              )
          | inr e ↦ rw e (Answers-still d laws sv (jobs i) _ _ (s.place i) grows (h i), left)
        ]

    Reach-Stands :
        {c : Conn} {s : Traffic Conn} (r : Reach d sv jobs c s)
        → IsUndeleted r
        → (i : ℕ) → Stands i (taken i r) s
    unfolding taken
    Reach-Stands {c} here h i =
        (first-Answers d laws sv (jobs i) (d.messages c), first_step-rank (jobs i))
    Reach-Stands (store j {s} r) h i =
        stepped-Stands i j (taken i r) s (λ k. (Reach-Stands r h k).0) (Reach-Stands r h i).1
    Reach-Stands (other q {s} n r) h i =
        let (right, left) = Reach-Stands r h.1 i in
        (Answers-still d laws sv (jobs i) _ _ (s.place i) (execute-Grows q s.conn h.0) right, left)

    -- In a database that meets IsRelational, while nothing is deleted, each of any number of messages that are
    -- stored at the same time has ended after four of its own statements, however they are interleaved with those
    -- of the others and with mailboxes that requests create: either the message that was returned as stored is in
    -- the table, with what it was read from, or an error was returned, or it is a Graph message and one with its
    -- identifier is in the table.
    pub Reach-IsServed :
        {c : Conn} {s : Traffic Conn} (r : Reach d sv jobs c s) (i : ℕ)
        → IsUndeleted r
        → 4 ≤ taken i r
        → IsServed d laws sv (jobs i) (d.messages s.conn) (s.place i)
    Reach-IsServed {c} {s} r i h enough =
        let (right, left) = Reach-Stands r h i in
        ended d laws sv (jobs i) (d.messages s.conn) (s.place i) (omega arith) right
