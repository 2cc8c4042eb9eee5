-- ===== src/Imap.antt =====
-- imap/poller.go: a fetch from the relay inbox over IMAP. go-imap's client is a parameter.
pub mod Kept
pub mod Routed
pub mod Watch
pub mod Idle
pub mod Refused
pub mod Sessions
use tempmail.Prelude.{
  ℕ, zero, suc, Bool, true, false, Option, none, some, List, [], ◌∷◌, ◌++◌, length, is_empty, ◌==◌,
  if◌then◌else◌,
}
use tempmail.Prelude.Int.{ℤ, pos, is_zero}
use tempmail.Text.{Text, Unicode, codes, same, to_lower, trim_space}
use tempmail.Models.{Time, Result, ok, err}
use tempmail.Database.{Db}
use tempmail.Inbound.{Services, store_message}
use tempmail.Graph.{Token, TokenAnswer, is_cached, exchanged}

-- a message of a fetch: its number, and its source if it has one that can be read
pub record Fetched : Type 0 where
  pub seq_num : ℕ
  pub body : Option Text

-- The client of go-imap over the state of the connection and the inbox; `none` is a nil error.
pub record Client (S : Type 0) : Type 0 where
  pub dial_tls : Text → ℤ → S → Option Text × S
  pub dial : Text → ℤ → S → Option Text × S
  pub start_tls : S → Option Text × S
  pub login : Text → Text → S → Option Text × S
  -- Authenticate with the mechanism XOAUTH2 and its first response
  pub authenticate : Text → S → Option Text × S
  pub logout : S → S
  pub select : Text → S → Option Text × S
  pub search_unseen : S → Result Text (List ℕ) × S
  -- the messages that come in before the fetch ends, and its error
  pub fetch : List ℕ → S → (List Fetched × Option Text) × S
  pub mark_seen : List ℕ → S → Option Text × S
  -- the token endpoint of Microsoft
  pub exchange : Text → Result Text TokenAnswer

pub record Poller : Type 0 where
  pub host : Text
  pub port : ℤ
  pub use_tls : Bool
  pub start_tls : Bool
  pub auth_mode : Text
  pub username : Text
  pub password : Text
  pub mailbox : Text
  pub token : Token

-- newXOAuth2SASL
unfoldable pub xoauth2 : Text → Text → Text
xoauth2 user token =
    codes "user=" ++ (user ++ (1 ∷ (codes "auth=Bearer " ++ (token ++ (1 ∷ 1 ∷ [])))))

module _ {S : Type 0} (client : Client S) where
  port_of : Poller → ℤ
  port_of p = if is_zero p.port then (if p.use_tls then pos 993 else pos 143) else p.port

  -- a call on a connection that was dialed, whose error closes it
  close_on_error : Option Text × S → Option Text × S
  close_on_error (none, s) = (none, s)
  close_on_error (some e, s) = (some e, client.logout s)

  -- StartTLS on a connection that was dialed
  upgrade : Option Text × S → Option Text × S
  unfolding close_on_error
  upgrade (some e, s) = (some e, s)
  upgrade (none, s) = close_on_error (client.start_tls s)

  dialed : Poller → S → Option Text × S
  unfolding port_of upgrade
  dialed p s =
      if p.use_tls
      then client.dial_tls p.host (port_of p) s
      else if p.start_tls
      then upgrade (client.dial p.host (port_of p) s)
      else client.dial p.host (port_of p) s

  -- fetchAccessToken
  unfoldable pub access_token : Time → Token → Result Text Text × Token × Option Text
  access_token now t =
      if is_cached now t
      then (ok t.access_token, t, none)
      else exchanged now t (client.exchange t.refresh_token)

  with_token : Poller → Result Text Text → S → Option Text × S
  unfolding close_on_error xoauth2
  with_token p (err e) s = (some e, client.logout s)
  with_token p (ok token) s = close_on_error (client.authenticate (xoauth2 p.username token) s)

  module _ ⦃u : Unicode⦄ where
    authorized : Time → Poller → Option Text × S → Option Text × Poller × S
    unfolding access_token with_token close_on_error
    authorized now p (some e, s) = (some e, p, s)
    authorized now p (none, s) =
        if same (to_lower (trim_space p.auth_mode)) (codes "oauth2")
        then (let (r, token, _) = access_token now p.token in
            let (e, t) = with_token p r s in (e, record p { token = token }, t))
        else (let (e, t) = close_on_error (client.login p.username p.password s) in (e, p, t))

    -- connect
    unfoldable pub connect : Time → Poller → S → Option Text × Poller × S
    unfolding dialed authorized
    connect now p s =
        if is_empty p.host
        then (some (codes "imap host is empty"), p, s)
        else authorized now p (dialed p s)

    module _ {Conn : Type 0} (d : Db Conn) (sv : Services) (domains : List Text) where
      -- the loop over the messages that come in; every error of StoreMessage is logged alone
      pub store_fetched : List Fetched → Time → Conn → Conn
      store_fetched [] now c = c
      store_fetched (m ∷ ms) now c = elim m.body [
        | none ↦ store_fetched ms now c
        | some raw ↦
            store_fetched ms now
              (if is_empty raw then c else (store_message d sv domains raw now now c).1)
      ]

      abbrev pub numbers : List Fetched → List ℕ
      numbers [] = []
      numbers (m ∷ ms) = m.seq_num ∷ numbers ms

      -- what is marked as read: every message that came in, unless there is none; an error is logged
      mark : List ℕ → S → S
      mark [] s = s
      mark (n ∷ ns) s = (client.mark_seen (n ∷ ns) s).1

      fetch_found : List ℕ → Time → S → Conn → Result Text ℕ × S × Conn
      unfolding store_fetched mark
      fetch_found [] now s c = (ok 0, s, c)
      fetch_found (n ∷ ids) now s c =
          let ((ms, e), t) = client.fetch (n ∷ ids) s in
          let c' = store_fetched ms now c in
          elim e [
            | some x ↦ (err x, t, c')
            | none ↦ (ok (length (n ∷ ids)), mark (numbers ms) t, c')
          ]

      fetch_searched : Result Text (List ℕ) × S → Time → Conn → Result Text ℕ × S × Conn
      unfolding fetch_found
      fetch_searched (err e, s) now c = (err e, s, c)
      fetch_searched (ok ids, s) now c = fetch_found ids now s c

      fetch_selected : Option Text × S → Time → Conn → Result Text ℕ × S × Conn
      unfolding fetch_searched
      fetch_selected (some e, s) now c = (err e, s, c)
      fetch_selected (none, s) now c = fetch_searched (client.search_unseen s) now c

      -- fetchUnread
      unfoldable pub fetch_unread : Text → Time → S → Conn → Result Text ℕ × S × Conn
      unfolding fetch_selected
      fetch_unread mailbox now s c = fetch_selected (client.select mailbox s) now c

      -- the end of a round: return, or go round again
      drain_next :
          (S → Conn → Option (Option Text) × S × Conn)
          → Result Text ℕ × S × Conn
          → Option (Option Text) × S × Conn
      drain_next again (err e, s, c) = (some (some e), s, c)
      drain_next again (ok zero, s, c) = (some none, s, c)
      drain_next again (ok (suc n), s, c) = again s c

      -- the loop of FetchOnce; `none` is a loop that has not ended after so many rounds. Each round reads
      -- the clock: `clock k` is what the round reads that `k` more may follow.
      unfoldable pub drain : ℕ → Text → (ℕ → Time) → S → Conn → Option (Option Text) × S × Conn
      unfolding drain_next fetch_unread
      drain zero mailbox clock s c = (none, s, c)
      drain (suc rounds) mailbox clock s c =
          drain_next (drain rounds mailbox clock) (fetch_unread mailbox (clock rounds) s c)

      abbrev pub inbox_of : Poller → Text
      inbox_of p = if is_empty p.mailbox then codes "INBOX" else p.mailbox

      fetch_connected :
          ℕ
          → (ℕ → Time)
          → Option Text × Poller × S
          → Conn
          → Option (Option Text) × Poller × S × Conn
      unfolding drain
      fetch_connected rounds clock (some e, p, s) c = (some (some e), p, s, c)
      fetch_connected rounds clock (none, p, s) c =
          let (r, t, c') = drain rounds (inbox_of p) clock s c in (r, p, client.logout t, c')

      -- FetchOnce; `connect` reads `clock rounds`, and each call ends with the connection closed
      unfoldable pub fetch_once :
          ℕ → (ℕ → Time) → Poller → S → Conn → Option (Option Text) × Poller × S × Conn
      unfolding fetch_connected connect
      fetch_once rounds clock p s c = fetch_connected rounds clock (connect (clock rounds) p s) c
