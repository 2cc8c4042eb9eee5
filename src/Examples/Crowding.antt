-- ===== src/Examples/Crowding.antt =====
-- Messages that are stored at the same time, a statement at a time.
use tempmail.Prelude.{ℕ, ◌==◌, ==_iff, false, if◌then◌else◌, List, [], ◌∷◌, arith, ◌≡◌, ◌≢◌, refl}
use tempmail.Prelude.Int.{pos}
use tempmail.Models.{Mailbox, err}
use tempmail.Database.{Unchanged, Fault}
use tempmail.Database.Memory.{Tables, memory}
use tempmail.Database.Memory.Laws.{memory-IsRelational}
use tempmail.Database.Memory.Sequence.{memory-IsSequenced}
use tempmail.Inbound.{database, auto_mailbox}
use tempmail.Routing.{IsRouted}
use tempmail.Inbound.Traffic.{
  Delivery, mail, graph, creating, filing, finished, advance, looked, made, first_step, delete_box,
  Traffic, stepped, arriving, Reach, here, store, other,
}
use tempmail.Inbound.Traffic.Race.{stepped-twice}
use tempmail.Inbound.Traffic.Routed.{Reach-IsRouted}
use tempmail.Inbound.Traffic.Answers.{IsServed}
use tempmail.Inbound.Traffic.Served.{taken, Reach-IsServed}
use tempmail.Inbound.Traffic.Counts.{IsUnique, IsUnderway}
use tempmail.Inbound.Traffic.Unique.{IsOrdered, Reach-IsUnique}
use tempmail.Examples.Fixtures.{graph_mail, ascii, bob, bob_mail, services, envelope_to, no_tables}

-- mails to Bob, as many as come
abbrev bob_delivery : Delivery
bob_delivery = mail bob_mail (envelope_to bob) bob (pos 1) (pos 2)

abbrev crowd : ℕ → Delivery
crowd i = bob_delivery

-- Two have looked and found nothing.
abbrev both_looked : Traffic Tables
both_looked =
    stepped memory services crowd 1
      (stepped memory services crowd 0 (arriving memory services crowd no_tables))

abbrev first_created : Traffic Tables
first_created = stepped memory services crowd 0 both_looked

-- The first creates the mailbox, a request deletes it, the second creates it again, and the first files its
-- message.
abbrev unlucky : Traffic Tables
unlucky =
    let s = first_created in
    stepped memory services crowd 0
      (stepped memory services crowd 1 (record s { conn = (memory.delete_mailboxes bob s.conn).1 }))

no_tables-IsRouted : IsRouted memory no_tables
no_tables-IsRouted = record { housed = tt; named = tt; distinct_ids = tt; distinct_addresses = tt }

unlucky-Reach : Reach memory services crowd no_tables unlucky
unfolding tempmail.Inbound.Traffic.execute
unlucky-Reach = store 0 (store 1 (other (delete_box bob) tt (store 0 (store 1 (store 0 here)))))

Reach-IsRouted_example : IsRouted memory unlucky.conn
Reach-IsRouted_example =
    Reach-IsRouted memory memory-IsRelational memory-IsSequenced services crowd no_tables-IsRouted
      unlucky-Reach

looked_0 : both_looked.place 0 ≡ creating
unfolding stepped advance looked
looked_0 = refl

looked_1 : both_looked.place 1 ≡ creating
unfolding stepped advance looked
looked_1 = refl

abbrev box_of_bob : Mailbox
box_of_bob = record (auto_mailbox memory services bob (pos 1)) { id = 1 }

created_0 : first_created.place 0 ≡ filing box_of_bob
unfolding stepped advance looked made
created_0 = refl

apart : ◌≢◌ {A = ℕ} 0 1
apart e = cc e

stepped-twice_example :
    (e : Fault) × ((stepped memory services crowd 1 first_created).place 1
      ≡ finished (err (database e)))
    × Unchanged memory first_created.conn (stepped memory services crowd 1 first_created).conn
stepped-twice_example =
    stepped-twice memory memory-IsRelational services crowd 0 1 both_looked box_of_bob apart
      looked_0 looked_1 refl created_0

-- a mail and a message of Graph, both to Bob
abbrev pair : ℕ → Delivery
pair i = if i == 1 then graph graph_mail bob (pos 1) (pos 2) else bob_delivery

-- the statements of the messages of a list, the last of it first
abbrev played : List ℕ → Traffic Tables
played [] = arriving memory services pair no_tables
played (i ∷ is) = stepped memory services pair i (played is)

unfoldable played-Reach : (is : List ℕ) → Reach memory services pair no_tables (played is)
played-Reach [] = here
played-Reach (i ∷ is) = store i (played-Reach is)

-- The message of Graph has looked for its mailbox before the mail creates it.
abbrev order_of_play : List ℕ
order_of_play = 1 ∷ 1 ∷ 0 ∷ 0 ∷ 1 ∷ 1 ∷ 0 ∷ []

Reach-IsServed_example :
    IsServed memory memory-IsRelational services
      (pair 1)
      (played order_of_play).conn.mails
      ((played order_of_play).place 1)
unfolding played-Reach taken
Reach-IsServed_example =
    Reach-IsServed memory memory-IsRelational services pair (played-Reach order_of_play) 1 tt
      (omega arith)

-- The mail creates its mailbox.
abbrev opening : List ℕ
opening = 0 ∷ 0 ∷ []

-- The message of Graph is checked, finds the mailbox that the mail has created, and is filed before the mail.
abbrev fair_play : List ℕ
fair_play = 0 ∷ 1 ∷ 1 ∷ 1 ∷ opening

alone : (s : Traffic Tables) (j : ℕ) → ◌≢◌ {A = ℕ} j 1 → IsUnderway (pair j) (s.place j) → ⊥
alone s j ne h = let no : (j == 1) ≡ false = ground (arith, ==_iff j 1) in rw no at h

fair_play-IsOrdered : IsOrdered memory memory-IsRelational services pair (played-Reach fair_play)
unfolding played-Reach stepped advance looked made
fair_play-IsOrdered = (
  tt,
  (
    (alone (played (1 ∷ 1 ∷ opening)), 0, refl),
    ((alone (played (1 ∷ opening)), 0, refl), ((alone (played opening), 0, refl), (tt, (tt, tt)))),
  ),
)

Reach-IsUnique_example : IsUnique (played fair_play).conn.mails
Reach-IsUnique_example =
    Reach-IsUnique memory memory-IsRelational services pair (played-Reach fair_play)
      (λ g e. omega arith) fair_play-IsOrdered
