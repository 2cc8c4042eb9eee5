-- ===== src/Imap/Idle.antt =====
-- imap/poller.go: idleWait, as the steps of its select, of the goroutine of IDLE and of the client's reader.
-- The reader is go-imap's: it delivers the updates of the server in their order, and while the channel Updates
-- is full it reads nothing more, the end of IDLE included.
pub mod Ends
pub mod Jams
use tempmail.Prelude.{ℕ, suc, ◌+◌, ◌-◌, ◌<◌, ◌≡◌, Bool, true, false, Option, none, some}
use tempmail.Text.{Text}
use tempmail.Imap.Watch.{IdleEnd, idle_wait, stop_closed, timed_out, updated, done}

-- the capacity of the channel updates
abbrev pub capacity : ℕ
capacity = 8

-- the case that the select took, after which the end of IDLE is awaited
pub data Cause : Type 0 where
  by_stop : Cause
  by_timer : Cause
  by_update : Cause

-- where idleWait stands: before its select, after it has closed idleStop, in the loop that drains the updates,
-- and after its return
pub data Place : Type 0 where
  selecting : Place
  closing : Cause → Place
  draining : Option Text → Place
  left : IdleEnd → Place

-- The updates in the channel, those that the reader has not delivered, and all that came since the start;
-- the value that was sent to the channel done; whether the channel stop is closed.
pub record IdleWait : Type 0 where
  pub place : Place
  pub buffered : ℕ
  pub unread : ℕ
  pub came : ℕ
  pub ended : Option (Option Text)
  pub stopped : Bool

-- what follows the receipt from done
unfoldable pub after_end : Cause → Option Text → Place
unfolding idle_wait
after_end by_stop e = left (idle_wait stop_closed)
after_end by_timer e = left (idle_wait (timed_out e))
after_end by_update e = draining e

abbrev pub waiting : IdleWait
waiting = record {
  place = selecting;
  buffered = 0;
  unread = 0;
  came = 0;
  ended = none;
  stopped = false;
}

infix 40 ◌↝◌
pub data ◌↝◌ (s : IdleWait) : IdleWait → Type 0 where
  arrive : s ↝ record s { unread = suc s.unread; came = suc s.came }
  deliver :
      0 < s.unread
      → s.buffered < capacity
      → s ↝ record s { unread = s.unread - 1; buffered = suc s.buffered }
  -- IDLE ends, with an error or without
  finish : (e : Option Text) → s.unread ≡ 0 → s.ended ≡ none → s ↝ record s { ended = some e }
  close_stop : s ↝ record s { stopped = true }
  see_stop : s.place ≡ selecting → s.stopped ≡ true → s ↝ record s { place = closing by_stop }
  see_timer : s.place ≡ selecting → s ↝ record s { place = closing by_timer }
  see_update :
      s.place ≡ selecting
      → 0 < s.buffered
      → s ↝ record s { place = closing by_update; buffered = s.buffered - 1 }
  see_end :
      (e : Option Text)
      → s.place ≡ selecting
      → s.ended ≡ some e
      → s ↝ record s { place = left (idle_wait (done e)) }
  hear :
      (c : Cause) (e : Option Text)
      → s.place ≡ closing c
      → s.ended ≡ some e
      → s ↝ record s { place = after_end c e }
  drain :
      (e : Option Text)
      → s.place ≡ draining e
      → 0 < s.buffered
      → s ↝ record s { buffered = s.buffered - 1 }
  drained :
      (e : Option Text)
      → s.place ≡ draining e
      → s.buffered ≡ 0
      → s ↝ record s { place = left (idle_wait (updated e)) }

pub data Reach (s : IdleWait) : IdleWait → Type 0 where
  here : Reach s s
  next : {t o : IdleWait} → Reach s t → t ↝ o → Reach s o

pub Reach-trans : {s t o : IdleWait} → Reach s t → Reach t o → Reach s o
Reach-trans r here = r
Reach-trans r (next q step) = next (Reach-trans r q) step
