-- ===== src/Examples/Idling.antt =====
-- Waits for IDLE, and an inbox that refuses to store the flag of a message that was read.
use tempmail.Prelude.{◌≡◌, ℕ, ◌-◌, refl, true, none, some, [], ◌∷◌, arith}
use tempmail.Prelude.Int.{pos}
use tempmail.Text.{codes}
use tempmail.Models.{Time, ok}
use tempmail.Database.Memory.{memory}
use tempmail.Imap.{Client, Poller, connect, fetch_once}
use tempmail.Imap.Refused.{IsRefusing, stored_again, fetch_once-stuck_imap}
use tempmail.Imap.Watch.{idle_stopped, idle_wait}
use tempmail.Imap.Idle.{
  by_stop, left, waiting, Reach, here, next, arrive, deliver, finish, close_stop, see_stop, hear,
  IdleWait,
}
use tempmail.Imap.Idle.Ends.{Returns, Reach-Returns}
use tempmail.Imap.Idle.Jams.{Jamming, Reach-Jamming}
use tempmail.Examples.Fixtures.{ascii, domains, services, no_tables}
use tempmail.Examples.Fetching.{mails, poller}

-- an update is in the channel
abbrev updated_once : IdleWait
updated_once = record waiting { buffered = 1; came = 1 }

updated_once-Reach : Reach waiting updated_once
updated_once-Reach = next (next here arrive) (deliver (omega arith) (omega arith))

Reach-Jamming_example : Jamming updated_once
Reach-Jamming_example = Reach-Jamming updated_once-Reach refl refl

-- stop was closed, and IDLE ended without an error
abbrev stopped_wait : IdleWait
stopped_wait = record updated_once { place = left idle_stopped; stopped = true; ended = some none }

stopped_wait-Reach : Reach waiting stopped_wait
unfolding tempmail.Imap.Idle.after_end idle_wait
stopped_wait-Reach =
    next
      (next (next (next updated_once-Reach close_stop) (see_stop refl refl))
        (finish none refl refl))
      (hear by_stop none refl refl)

Reach-Returns_example : Returns idle_stopped (some none) true
Reach-Returns_example = Reach-Returns idle_stopped stopped_wait-Reach refl

-- the client that refuses to store the flag, over an inbox in one state
abbrev refuser : Client (Unit {0})
refuser = record {
  dial_tls = λ h p s. (none, s);
  dial = λ h p s. (none, s);
  start_tls = λ s. (none, s);
  login = λ n w s. (none, s);
  authenticate = λ r s. (none, s);
  logout = λ s. s;
  select = λ m s. (none, s);
  search_unseen = λ s. (ok (1 ∷ []), s);
  fetch = λ ids s. ((mails ids, none), s);
  mark_seen = λ ids s. (some (codes "NO"), s);
  exchange = λ r. ok (record { access_token = []; refresh_token = []; expires_in = pos 0 });
}

refuser-IsRefusing : IsRefusing refuser (λ s. Unit {0}) 1 [] (mails (1 ∷ []))
refuser-IsRefusing = record {
  selected = λ m s q. refl;
  select_keeps = λ m s q. tt;
  found = λ s q. refl;
  search_keeps = λ s q. tt;
  fetched = λ s q. refl;
  fetch_keeps = λ s q. tt;
  mark_keeps = λ ns s q. tt;
}

abbrev ticking : ℕ → Time
ticking k = pos (8 - k)

connected : (connect refuser (ticking 3) poller tt).0 ≡ none
unfolding connect tempmail.Text.to_lower tempmail.Text.trim_space
connected = refl

fetch_once-stuck_imap_example :
    ((fetch_once refuser memory services domains 3 ticking poller tt no_tables).0 ≡ none)
    × ((fetch_once refuser memory services domains 3 ticking poller tt no_tables).3
        ≡ stored_again refuser memory services domains 3 (mails (1 ∷ [])) ticking no_tables)
fetch_once-stuck_imap_example =
    fetch_once-stuck_imap refuser memory services domains refuser-IsRefusing 3 ticking poller tt
      no_tables connected tt
