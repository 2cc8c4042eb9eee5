-- ===== src/Examples/Fetching.antt =====
-- A fetch over IMAP from an inbox of message numbers, all of which are mails to Bob.
use tempmail.Prelude.{ℕ, suc, ◌-◌, ◌≡◌, refl, true, false, none, some, List, [], ◌∷◌}
use tempmail.Prelude.Int.{pos}
use tempmail.Text.{codes}
use tempmail.Models.{ok, err}
use tempmail.Database.Memory.{memory}
use tempmail.Imap.{Client, Fetched, Poller, numbers, fetch_once}
use tempmail.Imap.Sessions.{IsCounted, fetch_once-Closed}
use tempmail.Imap.Watch.{Turn, updated, timed_out, stop_closed, watch}
use tempmail.Imap.Watch.Closed.{Ended, watch-Ended}
use tempmail.Examples.Fixtures.{ascii, bob_mail, domains, services, no_tables, token}

abbrev pub mails : List ℕ → List Fetched
mails [] = []
mails (n ∷ ns) = record { seq_num = n; body = some bob_mail } ∷ mails ns

-- the state is the numbers of the unseen messages
abbrev pub client : Client (List ℕ)
client = record {
  dial_tls = λ host port s. (none, s);
  dial = λ host port s. (none, s);
  start_tls = λ s. (none, s);
  login = λ user pass s. (none, s);
  authenticate = λ response s. (some (codes "no"), s);
  logout = λ s. s;
  select = λ mailbox s. (none, s);
  search_unseen = λ s. (ok s, s);
  fetch = λ ids s. ((mails ids, none), s);
  mark_seen = λ ids s. (none, []);
  exchange = λ r. err (codes "down");
}

abbrev pub poller : Poller
poller = record {
  host = codes "imap.y.org";
  port = pos 0;
  use_tls = true;
  start_tls = false;
  auth_mode = codes "plain";
  username = codes "relay";
  password = codes "pass";
  mailbox = [];
  token = token;
}

-- a server without mail, whose state is the number of the connections that are open
abbrev counting : Client ℕ
counting = record {
  dial_tls = λ host port n. (none, suc n);
  dial = λ host port n. (none, suc n);
  start_tls = λ n. (none, n);
  login = λ user pass n. (none, n);
  authenticate = λ response n. (some (codes "no"), n);
  logout = λ n. n - 1;
  select = λ mailbox n. (none, n);
  search_unseen = λ n. (ok [], n);
  fetch = λ ids n. (([], none), n);
  mark_seen = λ ids n. (none, n);
  exchange = λ r. err (codes "down");
}

counting-IsCounted : IsCounted counting (λ n. n)
counting-IsCounted = record {
  dial_tls = λ h p n. refl;
  dial = λ h p n. refl;
  logout = λ n. refl;
  start_tls = λ n. refl;
  login = λ u p n. refl;
  authenticate = λ r n. refl;
  select = λ m n. refl;
  search = λ n. refl;
  fetch = λ ids n. refl;
  mark_seen = λ ids n. refl;
}

fetch_once-Closed_example :
    (fetch_once counting memory services domains 3 (λ k. pos (8 - k)) poller 4 no_tables).2 ≡ 4
fetch_once-Closed_example =
    fetch_once-Closed counting (λ n. n) counting-IsCounted memory services domains 3
      (λ k. pos (8 - k)) poller 4 no_tables

-- a wait for IDLE that ends with new mail, one that fails, and a sleep that is cut short
abbrev waits : List Turn
waits =
    record {
      now = pos 6;
      stopped = false;
      stopped_asleep = false;
      offers_idle = true;
      idle = updated none;
    }
    ∷ record {
      now = pos 7;
      stopped = false;
      stopped_asleep = false;
      offers_idle = true;
      idle = timed_out (some (codes "EOF"));
    }
    ∷ record {
      now = pos 8;
      stopped = false;
      stopped_asleep = true;
      offers_idle = false;
      idle = stop_closed;
    }
    ∷ []

watch-Ended_example :
    Ended counting
      (λ n. n)
      counting-IsCounted
      memory
      services
      domains
      4
      (watch counting memory services domains (pos 5) waits poller 4 no_tables)
watch-Ended_example =
    watch-Ended counting (λ n. n) counting-IsCounted memory services domains (pos 5) waits poller 4
      no_tables

-- That loop ends, with the connections that there were before it.
watched : (watch counting memory services domains (pos 5) waits poller 4 no_tables).0 ≡ true
unfolding watch tempmail.Imap.connect tempmail.Text.to_lower tempmail.Text.trim_space
    tempmail.Imap.fetch_unread
watched = refl
