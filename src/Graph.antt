-- ===== src/Graph.antt =====
-- graph/poller.go: mail read from a Microsoft 365 inbox through the Graph API. The token endpoint
-- and the message endpoint are parameters.
pub mod Kept
pub mod Routed
pub mod Watch
pub mod Cached
pub mod Progress
use tempmail.Prelude.{
  ℕ, zero, suc, ◌+◌, ◌*◌, ◌^◌, Bool, true, false, not, ◌&&◌, ◌||◌, Option, none, some, List, [],
  ◌∷◌, ltb, leb, length, is_empty, if◌then◌else◌,
}
use tempmail.Prelude.Int.{ℤ, pos, ◌+ℤ◌, ◌-ℤ◌, ◌*ℤ◌, ltb_ℤ, leb_ℤ, wrap64}
use tempmail.Text.{Text, Unicode, same}
use tempmail.Models.{Time, zero_time, Message, Result, ok, err}
use tempmail.Database.{Db}
use tempmail.Recipient.{GraphMessage}
use tempmail.Inbound.{Services, StoreError, store_graph_message}

-- the fields of the token answer that are read
pub record TokenAnswer : Type 0 where
  pub access_token : Text
  pub refresh_token : Text
  pub expires_in : ℤ

pub record Token : Type 0 where
  pub access_token : Text
  pub token_expiry : Time
  pub refresh_token : Text

-- what the poller asks of Microsoft: a token for a refresh token, and the messages since an instant,
-- which the request writes to the second
pub record Remote : Type 0 where
  pub exchange : Text → Result Text TokenAnswer
  pub fetch : Text → Time → Result Text (List GraphMessage)

pub record Poller : Type 0 where
  pub token : Token
  -- the zero time before the first call
  pub since : Time

abbrev pub second : ℤ
second = pos (10 ^ 9)

abbrev pub page_size : ℕ
page_size = 50

-- time.Duration(n) * time.Second, and an hour in place of what is not positive
lifetime : ℤ → ℤ
lifetime n =
    let exp = wrap64 (n *ℤ second) in if leb_ℤ exp (pos 0) then pos (3600 * 10 ^ 9) else exp

-- the new refresh token, which OnRotated is called with too
rotated : Token → TokenAnswer → Option Text
rotated t a =
    if not (is_empty a.refresh_token) && not (same a.refresh_token t.refresh_token)
    then some a.refresh_token
    else none

accept_answer : Time → Token → TokenAnswer → Token
unfolding rotated lifetime
accept_answer now t a = record {
  access_token = a.access_token;
  token_expiry = now +ℤ lifetime a.expires_in -ℤ pos (60 * 10 ^ 9);
  refresh_token = elim (rotated t a) [ some r ↦ r | none ↦ t.refresh_token ];
}

pub exchanged : Time → Token → Result Text TokenAnswer → Result Text Text × Token × Option Text
unfolding accept_answer rotated
exchanged now t (err e) = (err e, t, none)
exchanged now t (ok a) =
    if is_empty a.access_token
    then (err [], t, none)
    else (ok a.access_token, accept_answer now t a, rotated t a)

unfoldable pub is_cached : Time → Token → Bool
is_cached now t = not (is_empty t.access_token) && ltb_ℤ now t.token_expiry

-- fetchAccessToken: the token or an error, the cache after it, and the call of OnRotated
unfoldable pub fetch_access_token : Remote → Time → Token → Result Text Text × Token × Option Text
unfolding is_cached exchanged
fetch_access_token remote now t =
    if is_cached now t
    then (ok t.access_token, t, none)
    else exchanged now t (remote.exchange t.refresh_token)

-- what pollOnce returns: that there was work, and that the page was full
pub record Polled : Type 0 where
  pub had_work : Bool
  pub full_page : Bool

module _ ⦃u : Unicode⦄ {Conn : Type 0} (d : Db Conn) (sv : Services) (domains : List Text) where
  later_of : Time → Text → Time
  later_of latest received_at = elim (sv.parse_time received_at) [
    | some t ↦ (if ltb_ℤ latest t then t else latest)
    | none ↦ latest
  ]

  is_stored : Result StoreError (Option Message) → ℕ
  is_stored (ok (some m)) = 1
  is_stored (ok none) = 0
  is_stored (err e) = 0

  -- the newest time of receipt of a page that is after `latest`
  unfoldable pub newest : List GraphMessage → Time → Time
  unfolding later_of
  newest [] latest = latest
  newest (gm ∷ rest) latest = newest rest (later_of latest gm.received_at)

  -- the loop over a page: the number stored, and the newest time of receipt
  store_page : List GraphMessage → Time → ℕ → Time → Conn → ℕ × Time × Conn
  unfolding later_of is_stored
  store_page [] now stored latest c = (stored, latest, c)
  store_page (gm ∷ rest) now stored latest c =
      let (r, c') = store_graph_message d sv domains gm now now c in
      store_page rest now (stored + is_stored r) (later_of latest gm.received_at) c'

  advance : Bool → Time → Time → Time
  advance full latest since =
      if leb_ℤ latest zero_time && leb_ℤ zero_time latest
      then since
      else if full
      then latest
      else latest +ℤ second

  poll_page : List GraphMessage → Time → Poller → Conn → Result Text Polled × Poller × Conn
  unfolding store_page advance
  poll_page [] now p c = (ok (record { had_work = false; full_page = false }), p, c)
  poll_page (gm ∷ rest) now p c =
      let full = leb page_size (length (gm ∷ rest)) in
      let (stored, latest, c') = store_page (gm ∷ rest) now 0 zero_time c in
      (
        ok (record { had_work = ltb 0 stored || full; full_page = full }),
        record p { since = advance full latest p.since },
        c',
      )

  module _ (remote : Remote) where
    poll_fetched :
        Result Text (List GraphMessage) → Time → Poller → Conn → Result Text Polled × Poller × Conn
    unfolding poll_page
    poll_fetched (err e) now p c = (err e, p, c)
    poll_fetched (ok page) now p c = poll_page page now p c

    poll_with : Result Text Text → Time → Poller → Conn → Result Text Polled × Poller × Conn
    unfolding poll_fetched
    poll_with (err e) now p c = (err e, p, c)
    poll_with (ok token) now p c = poll_fetched (remote.fetch token p.since) now p c

    unfoldable pub poll_once : Time → Poller → Conn → Result Text Polled × Poller × Conn
    unfolding poll_with
    poll_once now p c =
        let (r, token, _) = fetch_access_token remote now p.token in
        poll_with r now (record p { token = token }) c

    -- the end of a round: return, or go round again
    drain_next :
        (Poller → Conn → Option (Result Text (Unit {0})) × Poller × Conn)
        → Result Text Polled
        → Poller
        → Conn
        → Option (Result Text (Unit {0})) × Poller × Conn
    drain_next again (err e) p c = (some (err e), p, c)
    drain_next again (ok polled) p c = elim polled.full_page [
      | true ↦ again p c
      | false ↦ (some (ok tt), p, c)
    ]

    -- the loop of FetchOnce; `none` is a loop that has not ended after so many rounds. Each round reads the
    -- clock: `clock k` is what the round reads that `k` more may follow.
    drain : ℕ → (ℕ → Time) → Poller → Conn → Option (Result Text (Unit {0})) × Poller × Conn
    unfolding drain_next poll_once
    drain zero clock p c = (none, p, c)
    drain (suc rounds) clock p c =
        let (r, p', c') = poll_once (clock rounds) p c in drain_next (drain rounds clock) r p' c'

    -- p.since.IsZero() sets it two minutes back
    started : Time → Poller → Poller
    started now p =
        if leb_ℤ p.since zero_time && leb_ℤ zero_time p.since
        then record p { since = now -ℤ pos (120 * 10 ^ 9) }
        else p

    unfoldable pub fetch_once :
        ℕ → (ℕ → Time) → Poller → Conn → Option (Result Text (Unit {0})) × Poller × Conn
    unfolding drain started
    fetch_once rounds clock p c = drain rounds clock (started (clock rounds) p) c
