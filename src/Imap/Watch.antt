-- ===== src/Imap/Watch.antt =====
-- imap/poller.go: Run, which main does not start: the loop that polls, waits for IDLE or sleeps, and
-- connects again. What a turn meets in the channels, the timers and the capabilities of the server is its
-- input.
pub mod Closed
use tempmail.Prelude.{
  ℕ, zero, suc, Bool, true, false, not, Option, none, some, List, [], ◌∷◌, if◌then◌else◌,
}
use tempmail.Text.{Text, Unicode}
use tempmail.Models.{Time, Result, ok, err}
use tempmail.Database.{Db}
use tempmail.Inbound.{Services}
use tempmail.Imap.{Client, Poller, connect, fetch_unread, inbox_of}

-- the case of the select of idleWait that is taken, with the error that IDLE ends with
pub data IdleCase : Type 0 where
  stop_closed : IdleCase
  timed_out : Option Text → IdleCase
  updated : Option Text → IdleCase
  done : Option Text → IdleCase

-- what idleWait returns: errStopped, another error, or nil
pub data IdleEnd : Type 0 where
  idle_stopped : IdleEnd
  idle_failed : Text → IdleEnd
  woken : IdleEnd

idle_end : Option Text → IdleEnd
idle_end none = woken
idle_end (some e) = idle_failed e

unfoldable pub idle_wait : IdleCase → IdleEnd
unfolding idle_end
idle_wait stop_closed = idle_stopped
idle_wait (timed_out e) = idle_end e
idle_wait (updated e) = idle_end e
idle_wait (done e) = idle_end e

-- What one turn of the loop meets: whether stop is closed at its start, whether it is closed before the
-- sleep of the turn is over, whether the server offers IDLE, and how a wait for IDLE ends.
pub record Turn : Type 0 where
  pub now : Time
  pub stopped : Bool
  pub stopped_asleep : Bool
  pub offers_idle : Bool
  pub idle : IdleCase

-- the variables of Run; `connected` says that the client is not nil
pub record Watch (S Conn : Type 0) : Type 0 where
  pub connected : Bool
  pub poller : Poller
  pub server : S
  pub conn : Conn

module _ {S : Type 0} (client : Client S) ⦃u : Unicode⦄ {Conn : Type 0} (d : Db Conn)
    (sv : Services) (domains : List Text) where
  -- Select on the new connection
  selected : Conn → Poller → Option Text × S → Bool × Watch S Conn
  selected c p (none, s) = (true, record { connected = true; poller = p; server = s; conn = c })
  selected c p (some e, s) =
      (false, record { connected = false; poller = p; server = client.logout s; conn = c })

  reconnected : Conn → Option Text × Poller × S → Bool × Watch S Conn
  unfolding selected
  reconnected c (some e, p, s) =
      (false, record { connected = false; poller = p; server = s; conn = c })
  reconnected c (none, p, s) = selected c p (client.select (inbox_of client d sv domains p) s)

  -- the client is left, if there is one
  leave : Watch S Conn → Watch S Conn
  leave w = record w {
    connected = false;
    server = if w.connected then client.logout w.server else w.server;
  }

  -- the closure reconnect
  reconnect : Time → Watch S Conn → Bool × Watch S Conn
  unfolding reconnected leave
  reconnect now w = let v = leave w in reconnected v.conn (connect client now v.poller v.server)

  -- after idleWait; sleepOrStop ends the loop if stop is closed
  after_idle : Turn → Watch S Conn → IdleEnd → Bool × Watch S Conn
  unfolding leave
  after_idle t w idle_stopped = (false, w)
  after_idle t w woken = (true, w)
  after_idle t w (idle_failed e) = (not t.stopped_asleep, leave w)

  -- no new mail: IDLE, or sleep
  wait_for_mail : Turn → Watch S Conn → Bool → Bool × Watch S Conn
  unfolding after_idle idle_wait
  wait_for_mail t w true = after_idle t w (idle_wait t.idle)
  wait_for_mail t w false = (not t.stopped_asleep, w)

  polled : Turn → Poller → Result Text ℕ × S × Conn → Bool × Watch S Conn
  unfolding wait_for_mail
  polled t p (err e, s, c) = (
    not t.stopped_asleep,
    record { connected = false; poller = p; server = client.logout s; conn = c },
  )
  polled t p (ok zero, s, c) =
      wait_for_mail t (record { connected = true; poller = p; server = s; conn = c }) t.offers_idle
  polled t p (ok (suc n), s, c) =
      (true, record { connected = true; poller = p; server = s; conn = c })

  poll : Turn → Bool × Watch S Conn → Bool × Watch S Conn
  unfolding polled
  poll t (true, w) = polled t w.poller (
      fetch_unread client d sv domains (inbox_of client d sv domains w.poller) t.now w.server
        w.conn)
  poll t (false, w) = (not t.stopped_asleep, w)

  connection : Turn → Watch S Conn → Bool → Bool × Watch S Conn
  unfolding reconnect
  connection t w true = (true, w)
  connection t w false = reconnect t.now w

  -- one turn of the loop, and whether there is another
  unfoldable pub turn : Turn → Watch S Conn → Bool × Watch S Conn
  unfolding poll connection
  turn t w = if t.stopped then (false, w) else poll t (connection t w w.connected)

  -- the rest of the turns, if the loop goes on; `false` is a loop that goes on after all of them
  next_turns : (Watch S Conn → Bool × Watch S Conn) → Bool × Watch S Conn → Bool × Watch S Conn
  unfolding leave
  next_turns rest (true, w) = rest w
  next_turns rest (false, w) = (true, leave w)

  unfoldable pub turns : List Turn → Watch S Conn → Bool × Watch S Conn
  unfolding turn next_turns
  turns [] w = (false, w)
  turns (t ∷ ts) w = next_turns (turns ts) (turn t w)

  -- Run
  unfoldable pub watch : Time → List Turn → Poller → S → Conn → Bool × Watch S Conn
  unfolding turns reconnect
  watch now ts p s c =
      turns ts (reconnect now (record { connected = false; poller = p; server = s; conn = c })).1
