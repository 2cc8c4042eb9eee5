-- ===== src/Examples/Running.antt =====
-- Runs of the whole service, which fetches from an inbox over IMAP.
use tempmail.Prelude.{inl, arith, ◌≡◌, refl, List, [], ◌∷◌, map}
use tempmail.Prelude.Int.{pos}
use tempmail.Text.{Text, codes}
use tempmail.Models.{Message, ok}
use tempmail.Database.{IsNumber}
use tempmail.Database.Memory.{memory}
use tempmail.Database.Memory.Laws.{memory-IsRelational}
use tempmail.Config.{Config}
use tempmail.Routing.{IsRouted}
use tempmail.Mailroom.Statements.{view}
use tempmail.Mailroom.Growth.{Extends}
use tempmail.Server
use tempmail.Server.{manage, healthz}
use tempmail.Service.{Happening, http, mail, run_main}
use tempmail.Service.Runs.{run_main-IsRouted}
use tempmail.Service.Lossless.{run_main-Extends}
use tempmail.Examples.Fixtures.{
  ascii, bob, bob_mail, services, no_tables, one_mail, with_key, without_key, quiet,
}
use tempmail.Examples.Starting.{loaded}
use tempmail.Examples.Delivering.{outbound}
use tempmail.Examples.Fetching.{client}

-- the settings of the test of Load, with an inbox
abbrev relayed : Config
relayed = record loaded { imap = record loaded.imap { host = codes "imap.y.org" } }

-- the messages of an address are asked for and fetched, a mail comes in over SMTP, a stranger asks
abbrev morning : List Happening
morning =
    http with_key (manage (Server.list_messages bob)) (pos 4) (pos 5) (pos 6)
    ∷ mail (ok bob_mail) (pos 7) (pos 8)
    ∷ http without_key (manage (Server.get_mailbox bob)) (pos 9) (pos 10) (pos 11)
    ∷ []

no_tables-IsRouted : IsRouted memory no_tables
no_tables-IsRouted = record { housed = tt; named = tt; distinct_ids = tt; distinct_addresses = tt }

run_main-IsRouted_example :
    IsRouted memory
      (run_main memory services quiet client outbound 3
        (codes "dev")
        relayed
        morning
        (1 ∷ 2 ∷ [])
        no_tables).conn
run_main-IsRouted_example =
    run_main-IsRouted memory memory-IsRelational services quiet client 3 outbound (codes "dev")
      relayed morning (1 ∷ 2 ∷ []) no_tables (tt, (tt, (tt, tt))) no_tables-IsRouted

-- Bob has a mail when the morning begins.
one_mail-IsRouted : IsRouted memory one_mail
one_mail-IsRouted = record {
  housed = (inl (refl, refl), tt);
  named = (refl, tt);
  distinct_ids = (tt, tt);
  distinct_addresses = (tt, tt);
}

-- the morning, and a look at the mail
abbrev reading : List Happening
reading = http with_key (manage (Server.get_message (codes "1"))) (pos 2) (pos 3) (pos 3) ∷ morning

first : IsNumber (codes "1") 1
first = (refl, omega arith)

run_main-Extends_example : Extends (view memory one_mail) (
    view memory
      (run_main memory services quiet client outbound 3
        (codes "dev")
        relayed
        reading
        (1 ∷ 2 ∷ [])
        one_mail).conn)
run_main-Extends_example =
    run_main-Extends memory memory-IsRelational services quiet client 3 outbound (codes "dev")
      relayed reading (1 ∷ 2 ∷ []) one_mail ((1, first), (tt, (tt, (tt, tt))))
      (tt, (tt, (tt, (tt, tt)))) one_mail-IsRouted

-- At the end of that morning Bob has the two mails of the inbox and the one that came in over SMTP.
after_morning :
    map
      (λ (m : Message). m.to)
      (run_main memory services quiet client outbound 3
        (codes "dev")
        relayed
        morning
        (1 ∷ 2 ∷ [])
        no_tables).conn.mails
    ≡ bob ∷ bob ∷ bob ∷ []
unfolding run_main tempmail.Access.api_key_auth Server.serve tempmail.Smtp.receive_data
    tempmail.Inbound.store_message tempmail.Recipient.find_recipient tempmail.Text.trim_space
    tempmail.Smtp.new_session tempmail.Text.to_lower tempmail.Ingest.enter tempmail.Imap.fetch_once
    tempmail.Messages.list_messages
after_morning = refl
