-- ===== src/Examples/Polling.antt =====
-- Polls of Graph, and the fetches on demand.
use tempmail.Prelude.{
  ℕ, zero, suc, ◌<◌, ◌-◌, false, ◌^◌, ◌≡◌, ◌≢◌, refl, true, none, some, [], ◌∷◌, inl, inr, sym,
  subst, length, ◌≤◌, Bool-cases, arith,
}
use tempmail.Prelude.Int.{pos, ltb_ℤ, ◌+ℤ◌, ◌<ℤ◌}
use tempmail.Text.{codes}
use tempmail.Models.{Time, zero_time, ok}
use tempmail.Database.Memory.{memory}
use tempmail.Graph.{Remote, Token, fetch_once, newest, is_cached, fetch_access_token}
use tempmail.Graph.Cached.{HandedOn, fetch_access_token-twice}
use tempmail.Graph.Progress.{Advances, fetch_once-stuck, fetch_once-ends}
use tempmail.Ingest.{
  OnDemand, start, is_recent, enter, finish, close, await, sync, done, shut, Reach, here, next,
}
use tempmail.Ingest.Exclusion.{IsAnswer, Inv, Reach-Inv, Reach-outcome, Reach-close}
use tempmail.Examples.Fixtures.{
  burst, poller, ascii, copies, domains, services, no_tables, graph_mail, token, early, settling,
}

newest_of_burst : newest memory services domains (copies 50) zero_time ≡ pos (10 ^ 9)
unfolding newest
newest_of_burst = refl

-- the reading of the clock by the round that so many may follow
abbrev ticking : ℕ → Time
ticking k = pos (8 - k)

valid : (k : ℕ) → k < 3 → is_cached (ticking k) token ≡ true
unfolding is_cached
valid zero h = refl
valid (suc zero) h = refl
valid (suc (suc zero)) h = refl
valid (suc (suc (suc k))) h = absurd (omega arith)

settling-Advances : Advances memory services domains settling (pos (10 ^ 9))
settling-Advances = record {
  newer = λ t since page q long. elim (Bool-cases (ltb_ℤ since (pos (10 ^ 9)))) [
    | inl e ↦
        let same : copies 50 ≡ page = ground arith in
        rw (← same, newest_of_burst) (ground arith, omega arith)
    | inr e ↦
        let same : graph_mail ∷ [] ≡ page = ground arith in
        absurd (omega (arith, subst (λ ms. 50 ≤ length ms) (sym same) long))
  ];
}

fetch_once-ends_example :
    (fetch_once memory services domains settling 3 ticking early no_tables).0 ≢ none
unfolding ◌+ℤ◌
fetch_once-ends_example =
    fetch_once-ends memory services domains settling (pos (10 ^ 9)) 3 ticking early no_tables
      settling-Advances (omega arith) (omega arith) (omega arith)

fetch_once-stuck_example :
    (fetch_once memory services domains burst 3 ticking poller no_tables).0 ≡ none
fetch_once-stuck_example =
    fetch_once-stuck memory services domains burst ticking poller (copies 50) refl (omega arith)
      (omega arith) newest_of_burst 3 no_tables valid

abbrev busy : OnDemand
busy = (enter none (pos 1) (start (pos 9))).1

-- a request starts a fetch, and the fetch ends
began : Reach (start (pos 9)) busy
began = next here (sync none (pos 1) (start (pos 9)))

in_flight : busy.inflight ≡ some 0
unfolding enter is_recent
in_flight = refl

over : Reach (start (pos 9)) (finish 0 none (pos 5) busy)
over = next began (done 0 none (pos 5) busy in_flight)

Reach-Inv_example : Inv (finish 0 none (pos 5) busy)
Reach-Inv_example = Reach-Inv (pos 9) over

known : (finish 0 none (pos 5) busy).outcome 0 ≡ some none
unfolding finish
known = refl

Reach-outcome_example :
    IsAnswer none
      (some (codes "gone"))
      (await false 0 (some (codes "gone")) (close (finish 0 none (pos 5) busy)))
Reach-outcome_example =
    Reach-outcome (pos 9) false 0 none (some (codes "gone")) over
      (next here (shut (finish 0 none (pos 5) busy))) known

Reach-close_example :
    ((enter none (pos 8) (close busy)).1.closed ≡ true)
    × ((enter none (pos 8) (close busy)).1.next_call ≡ busy.next_call)
Reach-close_example = Reach-close busy (next here (sync none (pos 8) (close busy)))

-- an endpoint that gives a new refresh token with the access token
abbrev rotating : Remote
rotating = record {
  exchange = λ r.
      ok (record {
        access_token = codes "EwB";
        refresh_token = codes "M.C2";
        expires_in = pos 3600;
      });
  fetch = λ t since. ok [];
}

abbrev unfilled : Token
unfilled = record { access_token = []; token_expiry = pos 0; refresh_token = codes "M.C1" }

rotated_once : (fetch_access_token rotating (pos 1) unfilled).0 ≡ ok (codes "EwB")
unfolding fetch_access_token is_cached
rotated_once = refl

soon : pos 5 <ℤ (fetch_access_token rotating (pos 1) unfilled).1.token_expiry
unfolding fetch_access_token is_cached tempmail.Prelude.Int.◌-ℤ◌ ◌+ℤ◌ tempmail.Prelude.Int.wrap64
    tempmail.Prelude.Int.◌*ℤ◌
soon = omega arith

fetch_access_token-twice_example :
    (fetch_access_token settling (pos 5) (fetch_access_token rotating (pos 1) unfilled).1
      ≡ (ok (codes "EwB"), (fetch_access_token rotating (pos 1) unfilled).1, none))
    × HandedOn
        (codes "M.C1")
        (fetch_access_token rotating (pos 1) unfilled).1.refresh_token
        (fetch_access_token rotating (pos 1) unfilled).2
fetch_access_token-twice_example =
    fetch_access_token-twice rotating settling (pos 1) (pos 5) unfilled (codes "EwB") rotated_once
      soon
